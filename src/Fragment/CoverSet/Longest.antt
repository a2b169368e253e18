-- ===== src/Fragment/CoverSet/Longest.antt =====
-- LongestOverlappingFragment (v2/pkg/fragment/cover_set.go): the fragment found, and what is left behind.
use gazette.Prelude.{
  ℕ, suc, ◌≤◌, ◌<◌, ◌≡◌, refl, sym, Bool, true, false, some, [], ◌∷◌, arith, if◌then◌else◌,
  Bool-cases, inl, inr, All, take, drop, test_at, get_elem?,
}
use gazette.Go.Search.{prefix_length, search_index-prefix_length}
use gazette.Fragment.Types.{LocalFragment}
use gazette.Fragment.CoverSet.{
  CoverSet, ends_after, begins_by, skip_forward, longest_overlapping_fragment,
}
use gazette.Fragment.CoverSet.Order.{Before, Before-All, IsCover, spans, ends_after-IsMonotone}

-- What the call returns for `offset`: a covering element with the greatest end, or the position
-- between the elements that end by the offset and those that begin after it.
pub data Found (s : CoverSet) (offset i : ℕ) : Bool → Type 0 where
  at_element :
      (x : LocalFragment)
      → get_elem? s i ≡ some x
      → spans offset x ≡ true
      → All (λ y. spans offset y ≡ true → y.end ≤ x.end) s
      → Found s offset i true
  between :
      All (λ y. y.end ≤ offset) (take i s)
      → All (λ y. offset < y.begin) (drop i s)
      → Found s offset i false

-- The search as a recursion on the set.
abbrev pub find_longest : CoverSet → ℕ → ℕ × Bool
find_longest [] o = (0, false)
find_longest (x ∷ xs) o =
    if ends_after o x
    then (skip_forward o xs 0, begins_by o x)
    else (suc (find_longest xs o).0, (find_longest xs o).1)

pub skip_forward-suc :
    (o : ℕ) (xs : CoverSet) (i : ℕ) → skip_forward o xs (suc i) ≡ suc (skip_forward o xs i)
unfolding skip_forward
skip_forward-suc o [] i = refl
skip_forward-suc o (x ∷ xs) i = ground (arith, skip_forward-suc o xs (suc i))

from_prefix :
    (s : CoverSet) (o : ℕ)
    → find_longest s o ≡ (
        let ind = prefix_length (ends_after o) s in
        (skip_forward o (drop (suc ind) s) ind, test_at (begins_by o) s ind))
from_prefix [] o = unfold skip_forward in refl
from_prefix (x ∷ xs) o = elim (Bool-cases (ends_after o x)) [
  | inl e ↦ rw e
  | inr e ↦ rw e (
      rw (from_prefix xs o) (
        rw
          (skip_forward-suc o (drop (suc (prefix_length (ends_after o) xs)) xs)
            (prefix_length (ends_after o) xs))
          refl))
]

pub longest-find_longest :
    (s : CoverSet) (o : ℕ) → IsCover s → longest_overlapping_fragment s o ≡ find_longest s o
unfolding longest_overlapping_fragment
longest-find_longest s o c =
    rw (search_index-prefix_length (ends_after o) s (ends_after-IsMonotone o s c))
      (sym (from_prefix s o))

skip_forward-past :
    (o : ℕ) (xs : CoverSet) (i : ℕ) → All (λ y. o < y.begin) xs → skip_forward o xs i ≡ i
unfolding skip_forward
skip_forward-past o [] i a = refl
skip_forward-past o (x ∷ xs) i (p, a) = ground arith

-- Elements after one that begins after the offset do too, and do not span it.
pub All-past :
    (o : ℕ) (x : LocalFragment) (xs : CoverSet)
    → o < x.begin
    → All (Before x) xs
    → All (λ y. o < y.begin) xs
All-past o x [] l a = tt
All-past o x (y ∷ ys) l (p, a) = (omega arith, All-past o x ys l a)

past_spans :
    (o n : ℕ) (xs : CoverSet)
    → All (λ y. o < y.begin) xs
    → All (λ y. spans o y ≡ true → y.end ≤ n) xs
past_spans o n [] a = tt
past_spans o n (x ∷ xs) (p, a) = ((λ h. absurd (ground arith)), past_spans o n xs a)

Found-element :
    (o : ℕ) (x y : LocalFragment) (ys : CoverSet) (i : ℕ)
    → spans o y ≡ true
    → x.end ≤ y.end
    → Found (y ∷ ys) o i true
    → Found (x ∷ y ∷ ys) o (suc i) true
Found-element o x y ys i h l (at_element z e sp a) =
    at_element z e sp ((λ k. omega (arith, a.0 h)), a)

Found-skip :
    (o : ℕ) (x : LocalFragment) (xs : CoverSet)
    → IsCover (x ∷ xs)
    → spans o x ≡ true
    → Found (x ∷ xs) o (skip_forward o xs 0) true
unfolding skip_forward
Found-skip o x [] c h = at_element x refl h ((λ k. omega arith), tt)
Found-skip o x (y ∷ ys) (m, b, c) h = elim (Bool-cases (begins_by o y)) [
  | inl e ↦ rw e (
      rw (skip_forward-suc o ys 0) (
        Found-element o x y ys (skip_forward o ys 0) (ground arith) (ground arith)
          (Found-skip o y ys c (ground arith))))
  | inr e ↦ rw e (
      at_element x refl h (
        (λ k. omega arith),
        past_spans o x.end (y ∷ ys)
            (ground arith, All-past o y ys (ground arith) (Before-All y ys c.1 c.2)),
      ))
]

Found-pass :
    (o : ℕ) (x : LocalFragment) (xs : CoverSet) (i : ℕ) (found : Bool)
    → x.end ≤ o
    → Found xs o i found
    → Found (x ∷ xs) o (suc i) found
Found-pass o x xs i found l (at_element z e sp a) =
    at_element z e sp ((λ k. absurd (ground arith)), a)
Found-pass o x xs i found l (between a d) = between (l, a) d

Found-find_longest :
    (s : CoverSet) (o : ℕ) → IsCover s → Found s o (find_longest s o).0 (find_longest s o).1
Found-find_longest [] o c = between tt tt
Found-find_longest (x ∷ xs) o (m, b, c) = elim (Bool-cases (ends_after o x)) [
  | inr e ↦ rw e (Found-pass o x xs _ _ (ground arith) (Found-find_longest xs o c))
  | inl e ↦ rw e (elim (Bool-cases (begins_by o x)) [
    | inl e' ↦ rw e' (Found-skip o x xs (m, b, c) (rw (e, e')))
    | inr e' ↦
        let later = All-past o x xs (ground arith) (Before-All x xs b c) in
        rw (e', skip_forward-past o xs 0 later) (between tt (ground arith, later))
  ])
]

-- On an ordered set the call finds the covering element with the greatest end, or, where nothing
-- covers the offset, the position that parts the elements before it from those after it.
pub longest_overlapping_fragment-Found :
    (s : CoverSet) (offset : ℕ)
    → IsCover s
    → Found s offset
        (longest_overlapping_fragment s offset).0
        (longest_overlapping_fragment s offset).1
longest_overlapping_fragment-Found s o c =
    rw (longest-find_longest s o c) (Found-find_longest s o c)
