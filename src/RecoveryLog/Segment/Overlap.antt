-- ===== src/RecoveryLog/Segment/Overlap.antt =====
-- SegmentSet.Intersect of v2/pkg/recoverylog/segment.go, against the segments that overlap a range.
use mathlib.Core.Path.{subst}
use gazette.Prelude.{
  filter, ℕ, zero, suc, ◌≤◌, ◌<◌, ◌≡◌, inl, inr, refl, sym, ap, ◌∙◌, Bool, true, false, not, ◌&&◌,
  ◌||◌, some, [], ◌∷◌, ◌++◌, arith, ltb, ◌==◌, Bool-cases, All, take, drop, length, test_at,
}
use gazette.Go.Search.{prefix_length, IsMonotone, search_index-prefix_length}
use gazette.RecoveryLog.Segment.{
  Segment, SegmentSet, begins_from, reaches_past, walk_back, intersect,
}
use gazette.RecoveryLog.Segment.Order.{Follows}
use gazette.RecoveryLog.Segment.Loop.{IsOrdered}

-- Does a segment begin before the end of the range, and may it end after its beginning?
abbrev pub overlaps : ℕ → ℕ → Segment → Bool
overlaps first_offset last_offset x =
    ltb x.first_offset last_offset && (x.last_offset == 0 || ltb first_offset x.last_offset)

-- Once an element passes, all later ones do.
Rises : (Segment → Bool) → SegmentSet → Type 0
Rises p [] = Unit
Rises p (x ∷ xs) = (p x ≡ true → All (λ y. p y ≡ true) xs) × Rises p xs

filter-All : (p : Segment → Bool) (xs : SegmentSet) → All (λ y. p y ≡ true) xs → filter p xs ≡ xs
filter-All p [] a = refl
filter-All p (x ∷ xs) a = rw a.0 (ap (λ t. x ∷ t) (filter-All p xs a.1))

filter-not-All :
    (p : Segment → Bool) (xs : SegmentSet)
    → All (λ y. p y ≡ true) xs
    → filter (λ x. not (p x)) xs ≡ []
filter-not-All p [] a = refl
filter-not-All p (x ∷ xs) a = rw a.0 (filter-not-All p xs a.1)

drop-Rises :
    (p : Segment → Bool) (xs : SegmentSet) → Rises p xs → drop (prefix_length p xs) xs ≡ filter p xs
unfolding Rises
drop-Rises p [] r = refl
drop-Rises p (x ∷ xs) r = elim (Bool-cases (p x)) [
  | inl q ↦ rw q (ap (λ t. x ∷ t) (sym (filter-All p xs (r.0 q))))
  | inr q ↦ rw q (drop-Rises p xs r.1)
]

take-Rises :
    (p : Segment → Bool) (xs : SegmentSet)
    → Rises p xs
    → take (prefix_length p xs) xs ≡ filter (λ x. not (p x)) xs
unfolding Rises
take-Rises p [] r = refl
take-Rises p (x ∷ xs) r = elim (Bool-cases (p x)) [
  | inl q ↦ rw q (sym (filter-not-All p xs (r.0 q)))
  | inr q ↦ rw q (ap (λ t. x ∷ t) (take-Rises p xs r.1))
]

-- The loop that walks back stops at the first element that passes.
prefix_length-stop :
    (p : Segment → Bool) (xs : SegmentSet) (x : Segment)
    → p x ≡ true
    → prefix_length p (xs ++ x ∷ []) ≡ prefix_length p xs
prefix_length-stop p [] x h = ground (arith, h)
prefix_length-stop p (y ∷ ys) x h = ground (arith, prefix_length-stop p ys x h)

All-last :
    (p : Segment → Bool) (xs : SegmentSet) (x : Segment)
    → All (λ y. p y ≡ true) (xs ++ x ∷ [])
    → p x ≡ true
All-last p [] x a = a.0
All-last p (y ∷ ys) x a = All-last p ys x a.1

prefix_length-past :
    (p : Segment → Bool) (xs : SegmentSet) (x : Segment)
    → p x ≡ false
    → Rises p (xs ++ x ∷ [])
    → prefix_length p (xs ++ x ∷ []) ≡ suc (length xs)
unfolding Rises
prefix_length-past p [] x h r = ground (arith, h)
prefix_length-past p (y ∷ ys) x h r = elim (Bool-cases (p y)) [
  | inl q ↦ absurd (ground (arith, h, All-last p ys x (r.0 q)))
  | inr q ↦ ground (arith, q, prefix_length-past p ys x h r.1)
]

test_at-split :
    (p : Segment → Bool) (i : ℕ) (xs : SegmentSet)
    → i < length xs
    → (x : Segment) × (take (suc i) xs ≡ take i xs ++ x ∷ [])
      × (test_at p xs i ≡ p x)
      × (length (take i xs) ≡ i)
test_at-split p i [] l = absurd (omega arith)
test_at-split p zero (x ∷ xs) l = (x, refl, refl, refl)
test_at-split p (suc i) (x ∷ xs) l =
    let (y, s, t, n) = test_at-split p i xs (omega arith) in
    (y, ap (λ r. x ∷ r) s, t, omega (arith, n))

Rises-same : (p : Segment → Bool) {xs ys : SegmentSet} → xs ≡ ys → Rises p xs → Rises p ys
Rises-same p e r = subst (Rises p) e r

walk_back-prefix_length :
    (set : SegmentSet) (a j : ℕ)
    → j ≤ length set
    → ((i : ℕ) → Rises (reaches_past a) (take i set))
    → walk_back set a j ≡ prefix_length (reaches_past a) (take j set)
unfolding walk_back
walk_back-prefix_length set a zero l r = refl
walk_back-prefix_length set a (suc i) l r =
    let (x, s, t, n) = test_at-split (reaches_past a) i set l in
    elim (Bool-cases (reaches_past a x)) [
      | inl q ↦
          rw (t, q, s)
            (walk_back-prefix_length set a i (omega arith) r
              ∙ sym (prefix_length-stop (reaches_past a) (take i set) x q))
      | inr q ↦
          rw (t, q)
            (ap suc (sym n)
              ∙ sym (
                  prefix_length-past (reaches_past a) (take i set) x q
                    (Rises-same (reaches_past a) s (r (suc i))))
              ∙ ap (prefix_length (reaches_past a)) (sym s))
    ]

take-All :
    (p : Segment → Bool) (n : ℕ) (xs : SegmentSet)
    → All (λ y. p y ≡ true) xs
    → All (λ y. p y ≡ true) (take n xs)
take-All p zero xs a = tt
take-All p (suc n) [] a = tt
take-All p (suc n) (x ∷ xs) a = (a.0, take-All p n xs a.1)

take-keeps_Rises : (p : Segment → Bool) (n : ℕ) (xs : SegmentSet) → Rises p xs → Rises p (take n xs)
unfolding Rises
take-keeps_Rises p zero xs r = tt
take-keeps_Rises p (suc n) [] r = tt
take-keeps_Rises p (suc n) (x ∷ xs) r = (λ q. take-All p n xs (r.0 q), take-keeps_Rises p n xs r.1)

-- Both tests rise along a set in order.
following :
    (p : Segment → Bool) (x : Segment) (ys : SegmentSet)
    → ((y : Segment) → Follows x y → p x ≡ true → p y ≡ true)
    → All (Follows x) ys
    → p x ≡ true
    → All (λ y. p y ≡ true) ys
following p x [] f a q = tt
following p x (y ∷ ys) f a q = (f y a.0 q, following p x ys f a.1 q)

IsOrdered-Rises :
    (p : Segment → Bool) (xs : SegmentSet)
    → ((x y : Segment) → Follows x y → p x ≡ true → p y ≡ true)
    → IsOrdered xs
    → Rises p xs
unfolding Rises
IsOrdered-Rises p [] f o = tt
IsOrdered-Rises p (x ∷ xs) f o = (following p x xs (f x) o.1, IsOrdered-Rises p xs f o.2)

begins_from-rises :
    (n : ℕ) (x y : Segment) → Follows x y → begins_from n x ≡ true → begins_from n y ≡ true
begins_from-rises n x y f h = ground (arith, f.first_offsets)

reaches_past-rises :
    (n : ℕ) (x y : Segment) → Follows x y → reaches_past n x ≡ true → reaches_past n y ≡ true
reaches_past-rises n x y f h = ground (arith, f.last_offsets)

All-test_at :
    (p : Segment → Bool) (xs : SegmentSet)
    → All (λ y. p y ≡ true) xs
    → (m : ℕ) → m < length xs
    → test_at p xs m ≡ true
All-test_at p [] a m l = absurd (omega arith)
All-test_at p (x ∷ xs) a zero l = a.0
All-test_at p (x ∷ xs) a (suc m) l = All-test_at p xs a.1 m (omega arith)

Rises-IsMonotone : (p : Segment → Bool) (xs : SegmentSet) → Rises p xs → IsMonotone p xs
unfolding Rises
Rises-IsMonotone p [] r = tt
Rises-IsMonotone p (x ∷ xs) r = (λ q m l. All-test_at p xs (r.0 q) m l, Rises-IsMonotone p xs r.1)

prefix_length-length : (p : Segment → Bool) (xs : SegmentSet) → prefix_length p xs ≤ length xs
prefix_length-length p [] = omega arith
prefix_length-length p (x ∷ xs) = ground (arith, prefix_length-length p xs)

filter-filter :
    (a b : ℕ) (xs : SegmentSet)
    → filter (reaches_past a) (filter (λ x. not (begins_from b x)) xs) ≡ filter (overlaps a b) xs
filter-filter a b [] = refl
filter-filter a b (x ∷ xs) = ground (arith, filter-filter a b xs)

-- For a set in order and a range whose end is not before its beginning, the intersection is exactly
-- the segments, in order, whose first offset is below the end of the range and whose last offset is
-- zero or above its beginning.
pub intersect-filter :
    (set : SegmentSet) (first_offset last_offset : ℕ)
    → IsOrdered set
    → first_offset ≤ last_offset
    → intersect set first_offset last_offset ≡ some (filter (overlaps first_offset last_offset) set)
unfolding intersect
intersect-filter set a b o l =
    let rising = IsOrdered-Rises (reaches_past a) set (reaches_past-rises a) o in
    let ending = IsOrdered-Rises (begins_from b) set (begins_from-rises b) o in
    let k = prefix_length (begins_from b) set in
    let j =
      search_index-prefix_length (begins_from b) set
        (Rises-IsMonotone (begins_from b) set ending) in
    let i =
      walk_back-prefix_length set a k (prefix_length-length (begins_from b) set)
        (λ n. take-keeps_Rises (reaches_past a) n set rising) in
    let guard : ltb b a ≡ false = ground arith in
    let body : drop (walk_back set a k) (take k set) ≡ filter (overlaps a b) set =
      ap (λ n. drop n (take k set)) i
      ∙ drop-Rises (reaches_past a) (take k set) (take-keeps_Rises (reaches_past a) k set rising)
      ∙ ap (filter (reaches_past a)) (take-Rises (begins_from b) set ending)
      ∙ filter-filter a b set in
    rw (guard, j) (ap some body)
