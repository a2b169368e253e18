-- ===== src/Fragment/CoverSet/Invariant.antt =====
-- CoverSet.Add (v2/pkg/fragment/cover_set.go) against the documented invariant of the set.
use gazette.Prelude.{
  ℕ, ◌≤◌, ◌<◌, ◌≡◌, refl, sym, ap, ◌∙◌, ◌⊎◌, Bool, false, ◌&&◌, ◌||◌, not, some, [], ◌∷◌, ◌++◌,
  arith, ltb, leb, ◌==◌, Bool-cases, inl, inr, All, last, init, ltb→lt, lt→ltb,
}
use gazette.Protocol.Fragment.{is_empty}
use gazette.Fragment.Types.{LocalFragment}
use gazette.Fragment.CoverSet.{CoverSet, covers_more, same_journal, add, add_nonempty}
use gazette.Fragment.CoverSet.Order.{
  Before, Before-All, IsCover, FitsLast, spans, covered, end-le-last,
}
use gazette.Fragment.CoverSet.Insert.{insert, add_nonempty-insert, slow_path-insert}
use gazette.Fragment.CoverSet.Adding.{insert-IsCover, insert-covered}

-- What a call of `add` that does not panic returned.
add-cases :
    (s : CoverSet) (f : LocalFragment) {t : CoverSet} {ok : Bool}
    → f.begin ≤ f.end
    → add s f ≡ some (t, ok)
    → ((f.begin ≡ f.end) × (t ≡ s) × (ok ≡ false))
      ⊎ ((f.begin < f.end) × (add_nonempty s f ≡ (t, ok)))
unfolding add is_empty
add-cases s f n e = elim (Bool-cases (same_journal s f)) [
  | inl j ↦ ground arith
  | inr j ↦ ground arith
]

-- Where a fragment that does not end before it begins is added to an ordered set, and the journals
-- match, the set returned is ordered and has no fragment within another, unless the fragment ends
-- past the whole set and an element besides the last one begins at or after it.
pub add-IsCover :
    (s : CoverSet) (f : LocalFragment) {t : CoverSet} {ok : Bool}
    → IsCover s
    → f.begin ≤ f.end
    → FitsLast s f
    → add s f ≡ some (t, ok)
    → IsCover t
add-IsCover s f c n fits e = elim (add-cases s f n e) [
  | inl (_, same, _) ↦ rw same c
  | inr (n', e') ↦
      rw (ap (λ r. r.0) (sym e' ∙ add_nonempty-insert s f c n' fits)) (insert-IsCover s f c n')
]

init-covered :
    (o : ℕ) (x : LocalFragment) (xs : CoverSet) (f : LocalFragment)
    → f.begin ≤ (last x xs).begin
    → (last x xs).end < f.end
    → covered o (init x xs ++ f ∷ []) ≡ (spans o f || covered o (x ∷ xs))
init-covered o x [] f l m = ground arith
init-covered o x (y ∷ ys) f l m = ground (arith, init-covered o y ys f l m)

append-covered :
    (o : ℕ) (s : CoverSet) (f : LocalFragment)
    → covered o (s ++ f ∷ []) ≡ (spans o f || covered o s)
append-covered o [] f = refl
append-covered o (x ∷ xs) f = ground (arith, append-covered o xs f)

add_nonempty-covered :
    (o : ℕ) (s : CoverSet) (f : LocalFragment)
    → IsCover s
    → f.begin < f.end
    → covered o (add_nonempty s f).0 ≡ (spans o f || covered o s)
unfolding add_nonempty
add_nonempty-covered o [] f c n = refl
add_nonempty-covered o (x ∷ xs) f c n = elim (Bool-cases (ltb (last x xs).end f.end)) [
  | inl e ↦ rw e (elim (Bool-cases (leb f.begin (last x xs).begin)) [
    | inl l ↦ rw l (init-covered o x xs f (ground arith) (ground arith))
    | inr l ↦ rw l (append-covered o (x ∷ xs) f)
  ])
  | inr e ↦ rw e (rw (slow_path-insert (x ∷ xs) f c n) (insert-covered o (x ∷ xs) f c))
]

-- Where a fragment that does not end before it begins is added to an ordered set, and the journals
-- match, the set returned covers an offset exactly if the fragment or the set before it did.
pub add-covered :
    (s : CoverSet) (f : LocalFragment) {t : CoverSet} {ok : Bool}
    → IsCover s
    → f.begin ≤ f.end
    → add s f ≡ some (t, ok)
    → (o : ℕ) → covered o t ≡ (spans o f || covered o s)
add-covered s f c n e o = elim (add-cases s f n e) [
  | inl (eq, same, _) ↦ rw same (ground arith)
  | inr (n', e') ↦ rw (ap (λ r. covered o r.0) e') at (add_nonempty-covered o s f c n')
]

-- The fragment's span lies within that of an element, and differs from it.
abbrev pub swallowed : LocalFragment → CoverSet → Bool
swallowed f [] = false
swallowed f (x ∷ xs) =
    (leb x.begin f.begin && leb f.end x.end && not (x.begin == f.begin && x.end == f.end))
    || swallowed f xs

later_swallowed :
    (f x : LocalFragment) (xs : CoverSet)
    → f.begin ≤ x.begin
    → All (Before x) xs
    → swallowed f xs ≡ false
later_swallowed f x [] l a = refl
later_swallowed f x (y ∷ ys) l (p, a) = ground (arith, later_swallowed f x ys l a)

pub insert-swallowed :
    (s : CoverSet) (f : LocalFragment)
    → IsCover s
    → ((insert s f).1 ≡ not (swallowed f s)) × ((insert s f).1 ≡ false → (insert s f).0 ≡ s)
insert-swallowed [] f c = (refl, λ h. cc)
insert-swallowed (x ∷ xs) f (m, b, c) = elim (Bool-cases (covers_more x f)) [
  | inl k ↦ rw k (ground arith, λ h. refl)
  | inr k ↦ rw k (elim (Bool-cases (leb f.begin x.begin)) [
    | inl l ↦
        rw l (ground (arith, later_swallowed f x xs (ground arith) (Before-All x xs b c)), λ h. cc)
    | inr l ↦ rw l (
      ground (arith, insert-swallowed xs f c),
      λ h. ap (λ t. x ∷ t) ((insert-swallowed xs f c).1 h),
    )
  ])
]

head_swallowed :
    (f x : LocalFragment) (s : CoverSet)
    → x.end < f.end
    → swallowed f s ≡ false
    → swallowed f (x ∷ s) ≡ false
head_swallowed f x s l e = ground arith

below_swallowed :
    (f x : LocalFragment) (xs : CoverSet)
    → IsCover (x ∷ xs)
    → (last x xs).end < f.end
    → swallowed f (x ∷ xs) ≡ false
below_swallowed f x [] c l = ground arith
below_swallowed f x (y ∷ ys) (m, b, c) l =
    head_swallowed f x (y ∷ ys) (omega (arith, end-le-last y ys c)) (below_swallowed f y ys c l)

add_nonempty-swallowed :
    (s : CoverSet) (f : LocalFragment)
    → IsCover s
    → f.begin < f.end
    → ((add_nonempty s f).1 ≡ not (swallowed f s))
      × ((add_nonempty s f).1 ≡ false → (add_nonempty s f).0 ≡ s)
unfolding add_nonempty
add_nonempty-swallowed [] f c n = (refl, λ h. cc)
add_nonempty-swallowed (x ∷ xs) f c n = elim (Bool-cases (ltb (last x xs).end f.end)) [
  | inl e ↦ rw e (elim (Bool-cases (leb f.begin (last x xs).begin)) [
    | inl l ↦ rw l (ap not (sym (below_swallowed f x xs c (ltb→lt _ _ e))), λ h. cc)
    | inr l ↦ rw l (ap not (sym (below_swallowed f x xs c (ltb→lt _ _ e))), λ h. cc)
  ])
  | inr e ↦ rw e (rw (slow_path-insert (x ∷ xs) f c n) (insert-swallowed (x ∷ xs) f c))
]

-- On an ordered set the result reports a change exactly if the fragment has content and lies within no larger element;
-- without a change the set is returned as it was.
pub add-swallowed :
    (s : CoverSet) (f : LocalFragment) {t : CoverSet} {ok : Bool}
    → IsCover s
    → f.begin ≤ f.end
    → add s f ≡ some (t, ok)
    → (ok ≡ not (f.begin == f.end || swallowed f s)) × (ok ≡ false → t ≡ s)
add-swallowed s f {t} {ok} c n e = elim (add-cases s f n e) [
  | inl (eq, same, rejected) ↦ (ground arith, λ h. same)
  | inr (n', e') ↦ changed n' e'
]
  where
    changed :
        f.begin < f.end
        → add_nonempty s f ≡ (t, ok)
        → (ok ≡ not (f.begin == f.end || swallowed f s)) × (ok ≡ false → t ≡ s)
    changed n' e' =
        let p : (ok ≡ not (swallowed f s)) × (ok ≡ false → t ≡ s) =
          rw (e') at (add_nonempty-swallowed s f c n') in
        (ground arith, p.1)

covers_end-begins :
    (zs : CoverSet) (f : LocalFragment) → IsCover (zs ++ f ∷ []) → All (λ y. y.begin < f.begin) zs
covers_end-begins [] f c = tt
covers_end-begins (z ∷ []) f (m, b, c) = (b.0, tt)
covers_end-begins (z ∷ y ∷ ys) f (m, b, c) =
    let rest = covers_end-begins (y ∷ ys) f c in (omega arith, rest)

All-init :
    (f x : LocalFragment) (xs : CoverSet)
    → All (λ y. y.begin < f.begin) (x ∷ xs)
    → All (λ y. y.begin < f.begin) (init x xs)
All-init f x [] a = tt
All-init f x (y ∷ ys) (p, a) = (p, All-init f y ys a)

add_nonempty-fits :
    (x : LocalFragment) (xs : CoverSet) (f : LocalFragment)
    → (last x xs).end < f.end
    → IsCover (add_nonempty (x ∷ xs) f).0
    → All (λ y. y.begin < f.begin) (init x xs)
unfolding add_nonempty
add_nonempty-fits x xs f l = rw (lt→ltb _ _ l) (elim (Bool-cases (leb f.begin (last x xs).begin)) [
  | inl e ↦ rw e (λ c. covers_end-begins (init x xs) f c)
  | inr e ↦ rw e (λ c. All-init f x xs (covers_end-begins (x ∷ xs) f c))
])

-- Where a fragment ends past an ordered set and an element besides the last one begins at or after
-- it, the fast path of `add` replaces the last element alone and the result is out of order.
pub add_breaks_order :
    (x : LocalFragment) (xs : CoverSet) (f : LocalFragment) {t : CoverSet} {ok : Bool}
    → IsCover (x ∷ xs)
    → f.begin < f.end
    → ¬ FitsLast (x ∷ xs) f
    → add (x ∷ xs) f ≡ some (t, ok)
    → ¬ IsCover t
add_breaks_order x xs f {t} c n u e ct = elim (add-cases (x ∷ xs) f (omega arith) e) [
  | inl (same, _, _) ↦ absurd (omega arith)
  | inr (_, e') ↦ u (λ l. add_nonempty-fits x xs f l (rw (ap (λ r. r.0) e') ct))
]
