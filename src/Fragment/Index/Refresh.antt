-- ===== src/Fragment/Index/Refresh.antt =====
-- ReplaceRemote and SpoolCommit (v2/pkg/fragment/index.go): no covered offset is lost.
use gazette.Prelude.{
  ℕ, suc, ◌<◌, ◌≡◌, refl, ap, ◌∙◌, ◌⊎◌, Bool, true, false, ◌||◌, not, some, [], ◌∷◌, arith, leb,
  Bytes, bytes_eq_iff, Bool-cases, inl, inr, All,
}
use gazette.Protocol.Fragment.{is_empty}
use gazette.Fragment.Types.{LocalFragment}
use gazette.Fragment.CoverSet.{CoverSet, add, covers_more, cover_set_difference}
use gazette.Fragment.CoverSet.Order.{
  IsCover, spans, covered, FitsLast, Before, Before-All, BeforeHead,
}
use gazette.Fragment.CoverSet.Insert.{insert, drop_within, add_nonempty-insert}
use gazette.Fragment.CoverSet.Adding.{insert-IsCover, insert-covered}
use gazette.Fragment.CoverSet.Invariant.{swallowed, insert-swallowed}
use gazette.Fragment.CoverSet.Difference.{
  Uncovered, done, kept, omitted, cover_set_difference-Uncovered,
}
use gazette.Fragment.Index.{Index, extend_set, replace_remote}

abbrev pub OfJournal : Bytes → CoverSet → Type 0
OfJournal j = All (λ x. x.journal ≡ j)

-- Each fragment fits the set that the ones before it have extended.
abbrev pub FitsEach : CoverSet → CoverSet → Type 0
FitsEach set [] = Unit
FitsEach set (x ∷ xs) = FitsLast set x × FitsEach (insert set x).0 xs

-- `add` of a fragment of the journal that has content is the reference definition.
add-insert :
    (j : Bytes) (s : CoverSet) (f : LocalFragment)
    → OfJournal j s
    → f.journal ≡ j
    → IsCover s
    → f.begin < f.end
    → FitsLast s f
    → add s f ≡ some (insert s f)
unfolding add is_empty
add-insert j [] f o e c n fits = ground (arith, add_nonempty-insert [] f c n fits)
add-insert j (x ∷ xs) f (p, o) e c n fits =
    ground (arith, bytes_eq_iff f.journal x.journal, add_nonempty-insert (x ∷ xs) f c n fits)

-- What holds of a set's elements and of a fragment holds of the elements of the set extended by it.
drop_within-All :
    (P : LocalFragment → Type 0) (f : LocalFragment) (s : CoverSet)
    → All P s
    → All P (drop_within f s)
drop_within-All P f [] o = tt
drop_within-All P f (x ∷ xs) (p, o) = elim (Bool-cases (leb x.end f.end)) [
  | inl e ↦ rw e (drop_within-All P f xs o)
  | inr e ↦ rw e (p, o)
]

insert-All :
    (P : LocalFragment → Type 0) (s : CoverSet) (f : LocalFragment)
    → All P s
    → P f
    → All P (insert s f).0
insert-All P [] f o e = (e, tt)
insert-All P (x ∷ xs) f (p, o) e = elim (Bool-cases (covers_more x f)) [
  | inl k ↦ rw k (p, o)
  | inr k ↦ rw k (elim (Bool-cases (leb f.begin x.begin)) [
    | inl l ↦ rw l (e, drop_within-All P f (x ∷ xs) (p, o))
    | inr l ↦ rw l (p, insert-All P xs f o e)
  ])
]

-- The span of `f` does not lie within that of `z`.
abbrev Outside : LocalFragment → LocalFragment → Type 0
Outside f z = (f.begin < z.begin) ⊎ (z.end < f.end)

Outside-swallowed : (f : LocalFragment) (s : CoverSet) → All (Outside f) s → swallowed f s ≡ false
Outside-swallowed f [] a = refl
Outside-swallowed f (x ∷ xs) (p, a) = ground (arith, Outside-swallowed f xs a)

Outside-All :
    (x : LocalFragment) (xs set : CoverSet)
    → All (Before x) xs
    → All (λ f. All (Outside f) set) xs
    → All (λ f. All (Outside f) (insert set x).0) xs
Outside-All x [] set b a = tt
Outside-All x (f ∷ fs) set (p, b) (q, a) =
    (insert-All (Outside f) set x q (inr p.1), Outside-All x fs set b a)

-- What the loop of ReplaceRemote makes of the set.
record Extends (set frags t : CoverSet) : Type 0 where
  ordered : IsCover t
  covers : (o : ℕ) → covered o t ≡ (covered o set || covered o frags)

extend_set-add :
    (set : CoverSet) (x : LocalFragment) (xs t : CoverSet) {r : CoverSet × Bool}
    → add set x ≡ some r
    → r.1 ≡ true
    → extend_set r.0 xs ≡ some t
    → extend_set set (x ∷ xs) ≡ some t
unfolding extend_set
extend_set-add set x xs t e ok rest = rw (e, extend_set) (rw ok rest)

extend_set-Extends :
    (j : Bytes) (set frags : CoverSet)
    → OfJournal j set
    → OfJournal j frags
    → IsCover set
    → IsCover frags
    → All (λ f. All (Outside f) set) frags
    → FitsEach set frags
    → (t : CoverSet) × (extend_set set frags ≡ some t) × Extends set frags t
unfolding extend_set
extend_set-Extends j set [] os of cs cf out fits =
    (set, refl, record { ordered = cs; covers = λ o. ground arith })
extend_set-Extends j set (x ∷ xs) os (q, of) cs (m, b, cf) (u, out) (fx, fits) =
    let rest =
      extend_set-Extends j (insert set x).0 xs (insert-All (λ y. y.journal ≡ j) set x os q) of
        (insert-IsCover set x cs m) cf (Outside-All x xs set (Before-All x xs b cf) out) fits in
    (
      rest.0,
      extend_set-add set x xs rest.0 (add-insert j set x os q cs m fx)
          ((insert-swallowed set x cs).0 ∙ ap not (Outside-swallowed x set u)) rest.1,
      record {
        ordered = rest.2.ordered;
        covers = λ o. rest.2.covers o ∙ regroup o (insert-covered o set x cs);
      },
    )
  where
    regroup :
        (o : ℕ)
        → covered o (insert set x).0 ≡ (spans o x || covered o set)
        → (covered o (insert set x).0 || covered o xs) ≡ (covered o set || covered o (x ∷ xs))
    regroup o e = rw e (ground arith)

-- The local fragments that remain.
Uncovered-All :
    (P : LocalFragment → Type 0) {b xs out : CoverSet} → Uncovered b xs out → All P xs → All P out
Uncovered-All P done a = tt
Uncovered-All P (kept x o s c u) (p, a) = (p, Uncovered-All P u a)
Uncovered-All P (omitted x w u) (p, a) = Uncovered-All P u a

All-Before : (x : LocalFragment) (xs : CoverSet) → All (Before x) xs → BeforeHead x xs
All-Before x [] a = tt
All-Before x (y ∷ ys) (p, a) = p

Uncovered-IsCover : {b xs out : CoverSet} → Uncovered b xs out → IsCover xs → IsCover out
Uncovered-IsCover done c = tt
Uncovered-IsCover (kept {xs = ys} {out = zs} x o s k u) (m, h, c) =
    (m, All-Before x zs (Uncovered-All (Before x) u (Before-All x ys h c)), Uncovered-IsCover u c)
Uncovered-IsCover (omitted x w u) (m, h, c) = Uncovered-IsCover u c

apart :
    (x : LocalFragment) (o : ℕ) (y : LocalFragment)
    → spans o x ≡ true
    → spans o y ≡ false
    → Outside x y
apart x o y s c = ground arith

open-Outside :
    (x : LocalFragment) (o : ℕ) (b : CoverSet)
    → spans o x ≡ true
    → covered o b ≡ false
    → All (Outside x) b
open-Outside x o [] s c = tt
open-Outside x o (y ∷ ys) s c = (apart x o y s (ground arith), open-Outside x o ys s (ground arith))

Uncovered-Outside : {b xs out : CoverSet} → Uncovered b xs out → All (λ f. All (Outside f) b) out
Uncovered-Outside done = tt
Uncovered-Outside {b} (kept x o s c u) = (open-Outside x o b s c, Uncovered-Outside u)
Uncovered-Outside (omitted x w u) = Uncovered-Outside u

Uncovered-covered :
    (o : ℕ) {b xs out : CoverSet}
    → Uncovered b xs out
    → (covered o b || covered o out) ≡ (covered o b || covered o xs)
Uncovered-covered o done = refl
Uncovered-covered o (kept x o' s c u) = ground (arith, Uncovered-covered o u)
Uncovered-covered o (omitted x w u) = ground (arith, w o, Uncovered-covered o u)

replace_remote-step :
    (fi : Index) (set t : CoverSet)
    → extend_set set (cover_set_difference fi.local set) ≡ some t
    → replace_remote fi set
      ≡ some (record {
        set = t;
        local = cover_set_difference fi.local set;
        wakes = suc fi.wakes;
        refreshed = true;
      })
unfolding replace_remote
replace_remote-step fi set t e = rw (e, replace_remote)

-- For an ordered remote listing of the index's journal that the remaining local fragments fit, the
-- refresh does not panic, and the new set is ordered and covers exactly the offsets of the listing
-- and of the local fragments known before it.
pub replace_remote-covers :
    (j : Bytes) (fi : Index) (set : CoverSet)
    → OfJournal j set
    → OfJournal j fi.local
    → IsCover set
    → IsCover fi.local
    → FitsEach set (cover_set_difference fi.local set)
    → (fi' : Index) × (replace_remote fi set ≡ some fi')
      × IsCover fi'.set
      × IsCover fi'.local
      × ((o : ℕ) → covered o fi'.set ≡ (covered o set || covered o fi.local))
replace_remote-covers j fi set os ol cs cl fits =
    let u = cover_set_difference-Uncovered fi.local set cl cs in
    let r =
      extend_set-Extends j set (cover_set_difference fi.local set) os
        (Uncovered-All (λ y. y.journal ≡ j) u ol) cs (Uncovered-IsCover u cl) (Uncovered-Outside u)
        fits in
    (
      record {
        set = r.0;
        local = cover_set_difference fi.local set;
        wakes = suc fi.wakes;
        refreshed = true;
      },
      replace_remote-step fi set r.0 r.1,
      r.2.ordered,
      Uncovered-IsCover u cl,
      λ o. r.2.covers o ∙ Uncovered-covered o u,
    )
