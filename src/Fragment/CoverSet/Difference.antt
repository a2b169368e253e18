-- ===== src/Fragment/CoverSet/Difference.antt =====
-- CoverSetDifference (v2/pkg/fragment/cover_set.go): it keeps exactly the fragments of one set that
-- hold an offset which the other set does not cover.
use gazette.Prelude.{
  ℕ, ◌≤◌, ◌<◌, ◌≡◌, refl, sym, ◌∙◌, true, false, ◌&&◌, [], ◌∷◌, arith, ltb, leb, if◌then◌else◌,
  Bool-cases, inl, inr, All, drop,
}
use gazette.Fragment.Types.{LocalFragment}
use gazette.Fragment.CoverSet.{
  CoverSet, ends_after, begins_by, skip_forward, contiguous, not_covered, cover_set_difference,
}
use gazette.Fragment.CoverSet.Order.{Before, Before-All, IsCover, spans, covered}
use gazette.Fragment.CoverSet.Longest.{
  find_longest, longest-find_longest, skip_forward-suc, All-past,
}

-- The second list holds, in order, the fragments of the first with an offset that `b` leaves open.
pub data Uncovered (b : CoverSet) : CoverSet → CoverSet → Type 0 where
  done : Uncovered b [] []
  kept :
      {xs out : CoverSet} (x : LocalFragment) (o : ℕ)
      → spans o x ≡ true
      → covered o b ≡ false
      → Uncovered b xs out
      → Uncovered b (x ∷ xs) (x ∷ out)
  omitted :
      {xs out : CoverSet} (x : LocalFragment)
      → ((o : ℕ) → spans o x ≡ true → covered o b ≡ true)
      → Uncovered b xs out
      → Uncovered b (x ∷ xs) out

-- Every offset from `lo` on is covered by both sets or by neither.
abbrev AgreeFrom : ℕ → CoverSet → CoverSet → Type 0
AgreeFrom lo b c = (o : ℕ) → lo ≤ o → covered o b ≡ covered o c

abbrev HeadEndsAfter : ℕ → CoverSet → Type 0
HeadEndsAfter lo [] = Unit
HeadEndsAfter lo (y ∷ ys) = lo < y.end

-- What the skipped suffix of `b` keeps.
record Skipped (lo : ℕ) (b c : CoverSet) : Type 0 where
  agrees : AgreeFrom lo c b
  ordered : IsCover c
  head_ends : HeadEndsAfter lo c

skip-Skipped :
    (lo : ℕ) (x : LocalFragment) (xs : CoverSet)
    → IsCover (x ∷ xs)
    → lo < x.end
    → Skipped lo (x ∷ xs) (drop (skip_forward lo xs 0) (x ∷ xs))
unfolding skip_forward
skip-Skipped lo x [] c l = record { agrees = λ o h. refl; ordered = c; head_ends = l }
skip-Skipped lo x (y ∷ ys) (m, b, c) l = elim (Bool-cases (begins_by lo y)) [
  | inr e ↦ rw e (record { agrees = λ o h. refl; ordered = (m, b, c); head_ends = l })
  | inl e ↦ rw e (
      rw (skip_forward-suc lo ys 0) (
        let ih = skip-Skipped lo y ys c (omega arith) in
        record {
          agrees = λ o h. ih.agrees o h ∙ absorb o h (ground arith);
          ordered = ih.ordered;
          head_ends = ih.head_ends;
        }))
]
  where
    absorb : (o : ℕ) → lo ≤ o → y.begin ≤ lo → covered o (y ∷ ys) ≡ covered o (x ∷ y ∷ ys)
    absorb o h k = ground arith

find_longest-Skipped :
    (lo : ℕ) (b : CoverSet) → IsCover b → Skipped lo b (drop (find_longest b lo).0 b)
find_longest-Skipped lo [] c = record { agrees = λ o h. refl; ordered = tt; head_ends = tt }
find_longest-Skipped lo (x ∷ xs) (m, b, c) = elim (Bool-cases (ends_after lo x)) [
  | inl e ↦ rw e (skip-Skipped lo x xs (m, b, c) (ground arith))
  | inr e ↦ rw e (
      let ih = find_longest-Skipped lo xs c in
      record {
        agrees = λ o h. ih.agrees o h ∙ pass o h (ground arith);
        ordered = ih.ordered;
        head_ends = ih.head_ends;
      })
]
  where
    pass : (o : ℕ) → lo ≤ o → x.end ≤ lo → covered o xs ≡ covered o (x ∷ xs)
    pass o h k = ground arith

past_covered : (o : ℕ) (xs : CoverSet) → All (λ y. o < y.begin) xs → covered o xs ≡ false
past_covered o [] a = refl
past_covered o (x ∷ xs) (p, a) = ground (arith, past_covered o xs a)

-- The fragment that the inner loop reaches: all up to its end is covered, and its end is not if it
-- falls short of `x`.
record Reaches (x y : LocalFragment) (ys : CoverSet) (e : LocalFragment) : Type 0 where
  through : (o : ℕ) → y.begin ≤ o → o < e.end → covered o (y ∷ ys) ≡ true
  stops : e.end < x.end → covered e.end (y ∷ ys) ≡ false
  extends : y.end ≤ e.end

through_cons :
    (o : ℕ) (y : LocalFragment) (s : CoverSet)
    → y.begin ≤ o
    → (y.end ≤ o → covered o s ≡ true)
    → covered o (y ∷ s) ≡ true
through_cons o y s h k = ground arith

open_cons :
    (o : ℕ) (y : LocalFragment) (s : CoverSet)
    → y.end ≤ o
    → covered o s ≡ false
    → covered o (y ∷ s) ≡ false
open_cons o y s h k = ground arith

contiguous-Reaches :
    (x y : LocalFragment) (ys : CoverSet) → IsCover (y ∷ ys) → Reaches x y ys (contiguous x y ys)
unfolding contiguous
contiguous-Reaches x y [] c = record {
  through = λ o h k. ground arith;
  stops = λ h. ground arith;
  extends = omega arith;
}
contiguous-Reaches x y (z ∷ zs) (m, b, c) =
    elim (Bool-cases (ltb y.end x.end && leb z.begin y.end)) [
      | inl e ↦ rw e (
          let ih = contiguous-Reaches x z zs c in
          record {
            through = λ o h k.
                through_cons o y (z ∷ zs) h (λ l. ih.through o (joined l (ground arith)) k);
            stops = λ h. open_cons _ y (z ∷ zs) (omega (arith, ih.extends)) (ih.stops h);
            extends = omega (arith, ih.extends);
          })
      | inr e ↦ rw e (record {
        through = λ o h k. ground arith;
        stops = λ h. gap h (ground arith);
        extends = omega arith;
      })
    ]
  where
    joined : {o : ℕ} → y.end ≤ o → z.begin ≤ y.end → z.begin ≤ o
    joined h k = omega arith

    gap : y.end < x.end → y.end < z.begin → covered y.end (y ∷ z ∷ zs) ≡ false
    gap h k =
        ground
          (arith, past_covered y.end (z ∷ zs) (k, All-past y.end z zs k (Before-All z zs c.1 c.2)))

-- The decision about one fragment.
not_covered-open :
    (x : LocalFragment) (b : CoverSet)
    → x.begin < x.end
    → IsCover b
    → HeadEndsAfter x.begin b
    → not_covered x b ≡ true
    → (o : ℕ) × (spans o x ≡ true) × (covered o b ≡ false)
unfolding not_covered
not_covered-open x [] m c l h = (x.begin, ground arith, refl)
not_covered-open x (y ∷ ys) m c l h = elim (Bool-cases (ltb x.begin y.begin)) [
  | inl e ↦ (
    x.begin,
    ground arith,
    past_covered x.begin (y ∷ ys)
        (ground arith, All-past x.begin y ys (ground arith) (Before-All y ys c.1 c.2)),
  )
  | inr e ↦
      let r = contiguous-Reaches x y ys c in
      ((contiguous x y ys).end, ground (arith, r.extends), r.stops (ground arith))
]

not_covered-within :
    (x : LocalFragment) (b : CoverSet)
    → IsCover b
    → not_covered x b ≡ false
    → (o : ℕ) → spans o x ≡ true
    → covered o b ≡ true
unfolding not_covered
not_covered-within x [] c h o s = cc
not_covered-within x (y ∷ ys) c h o s =
    let r = contiguous-Reaches x y ys c in r.through o (ground arith) (ground arith)

begins_after :
    (x : LocalFragment) (xs : CoverSet) → All (Before x) xs → All (λ y. x.begin ≤ y.begin) xs
begins_after x [] a = tt
begins_after x (y ∷ ys) (p, a) = (omega arith, begins_after x ys a)

All-from_zero : (a : CoverSet) → All (λ y. 0 ≤ y.begin) a
All-from_zero [] = tt
All-from_zero (x ∷ xs) = (omega arith, All-from_zero xs)

-- One round, given the set that is left of `b` for it.
round-Uncovered :
    (b0 : CoverSet) (x : LocalFragment) (b : CoverSet) {xs out : CoverSet}
    → x.begin < x.end
    → Skipped x.begin b0 b
    → Uncovered b0 xs out
    → Uncovered b0 (x ∷ xs) (if not_covered x b then x ∷ out else out)
round-Uncovered b0 x b m s u = elim (Bool-cases (not_covered x b)) [
  | inl e ↦ rw e (
      let w = not_covered-open x b m s.ordered s.head_ends e in
      kept x w.0 w.1 (sym (s.agrees w.0 (ground (arith, w.1))) ∙ w.2) u)
  | inr e ↦ rw e (
      omitted x (λ o h. sym (s.agrees o (ground arith)) ∙ not_covered-within x b s.ordered e o h) u)
]

-- The rounds agree with `b0` from where the fragments of `a` begin.
difference-Uncovered :
    (b0 : CoverSet) (a b : CoverSet) (lo : ℕ)
    → IsCover a
    → IsCover b
    → All (λ x. lo ≤ x.begin) a
    → AgreeFrom lo b b0
    → Uncovered b0 a (cover_set_difference a b)
unfolding cover_set_difference
difference-Uncovered b0 [] b lo ca cb low agree = done
difference-Uncovered b0 (x ∷ xs) b lo (m, bh, ca) cb (l, low) agree =
    rw (longest-find_longest b x.begin cb) (
      let s = find_longest-Skipped x.begin b cb in
      round-Uncovered b0 x (drop (find_longest b x.begin).0 b) m
        (record {
          agrees = λ o h. s.agrees o h ∙ agree o (omega arith);
          ordered = s.ordered;
          head_ends = s.head_ends;
        })
        (difference-Uncovered b0 xs (drop (find_longest b x.begin).0 b) x.begin ca s.ordered
          (begins_after x xs (Before-All x xs bh ca))
          (λ o h. s.agrees o h ∙ agree o (omega arith))))

-- For two ordered sets the result lists, in order, exactly those fragments of the first that hold an
-- offset which the second does not cover.
pub cover_set_difference-Uncovered :
    (a b : CoverSet) → IsCover a → IsCover b → Uncovered b a (cover_set_difference a b)
cover_set_difference-Uncovered a b ca cb =
    difference-Uncovered b a b 0 ca cb (All-from_zero a) (λ o h. refl)
