-- ===== src/Fragment/CoverSet/Insert.antt =====
-- A reference definition of `add` by recursion on the set, and that the code's searches and splices
-- agree with it on an ordered set.
use gazette.Prelude.{
  ℕ, suc, ◌<◌, ◌≡◌, refl, ap, sym, ◌∙◌, Bool, true, false, Option, none, some, [], ◌∷◌, ◌++◌, arith,
  ltb, leb, drop, last, init, if◌then◌else◌, Bool-cases, ltb→lt, All, inl, inr,
}
use mathlib.Core.Option
use gazette.Go.Search.{prefix_length, search_index-prefix_length}
use gazette.Fragment.Types.{LocalFragment}
use gazette.Fragment.CoverSet.{
  CoverSet, ends_after, covers_more, find_begin, find_end, splice, slow_path, add_nonempty,
}
use gazette.Fragment.CoverSet.Order.{IsCover, FitsLast, ends_after-IsMonotone, end-le-last}

-- Drop the fragments at the front that end within `f`.
abbrev pub drop_within : LocalFragment → CoverSet → CoverSet
drop_within f [] = []
drop_within f (x ∷ xs) = if leb x.end f.end then drop_within f xs else x ∷ xs

abbrev cons_first : LocalFragment → CoverSet × Bool → CoverSet × Bool
cons_first x r = (x ∷ r.0, r.1)

abbrev pub insert : CoverSet → LocalFragment → CoverSet × Bool
insert [] f = (f ∷ [], true)
insert (x ∷ xs) f =
    if covers_more x f
    then (x ∷ xs, false)
    else if leb f.begin x.begin
    then (f ∷ drop_within f (x ∷ xs), true)
    else cons_first x (insert xs f)

find_begin-suc :
    (f : LocalFragment) (xs : CoverSet) (r : ℕ)
    → find_begin f xs (suc r) ≡ Option.map suc (find_begin f xs r)
unfolding find_begin
find_begin-suc f [] r = refl
find_begin-suc f (x ∷ xs) r = ground (arith, find_begin-suc f xs (suc r))

find_end-suc :
    (f : LocalFragment) (xs : CoverSet) (r : ℕ) → find_end f xs (suc r) ≡ suc (find_end f xs r)
unfolding find_end
find_end-suc f [] r = refl
find_end-suc f (x ∷ xs) r = ground (arith, find_end-suc f xs (suc r))

drop-find_end : (f : LocalFragment) (xs : CoverSet) → drop (find_end f xs 0) xs ≡ drop_within f xs
unfolding find_end
drop-find_end f [] = refl
drop-find_end f (x ∷ xs) = elim (Bool-cases (leb x.end f.end)) [
  | inl e ↦ rw e (rw (find_end-suc f xs 0) (drop-find_end f xs))
  | inr e ↦ rw e
]

splice-suc :
    (x : LocalFragment) (s : CoverSet) (f : LocalFragment) (o : Option ℕ)
    → splice (x ∷ s) f (Option.map suc o) ≡ cons_first x (splice s f o)
unfolding splice
splice-suc x s f none = refl
splice-suc x s f (some b) = rw (find_end-suc f (drop b s) b)

splice-none : (s : CoverSet) (f : LocalFragment) → splice s f none ≡ (s, false)
unfolding splice
splice-none s f = refl

splice-zero : (s : CoverSet) (f : LocalFragment) → splice s f (some 0) ≡ (f ∷ drop_within f s, true)
unfolding splice
splice-zero s f = ap (λ t. (f ∷ t, true)) (drop-find_end f s)

splice-find_begin : (s : CoverSet) (f : LocalFragment) → splice s f (find_begin f s 0) ≡ insert s f
unfolding find_begin
splice-find_begin [] f = splice-zero [] f
splice-find_begin (x ∷ xs) f = elim (Bool-cases (covers_more x f)) [
  | inl e ↦ rw e (splice-none (x ∷ xs) f)
  | inr e ↦ rw e (elim (Bool-cases (leb f.begin x.begin)) [
    | inl e' ↦ rw e' (splice-zero (x ∷ xs) f)
    | inr e' ↦
        rw (e', find_begin-suc f xs 0)
          (splice-suc x xs f (find_begin f xs 0) ∙ ap (cons_first x) (splice-find_begin xs f))
  ])
]

-- A fragment that ends at or below where `f` begins is passed by.
insert-skip :
    (x : LocalFragment) (xs : CoverSet) (f : LocalFragment)
    → x.begin < x.end
    → f.begin < f.end
    → ends_after f.begin x ≡ false
    → cons_first x (insert xs f) ≡ insert (x ∷ xs) f
insert-skip x xs f m n e = elim (Bool-cases (covers_more x f)) [
  | inl k ↦ absurd (ground arith)
  | inr k ↦
      rw k
        (elim (Bool-cases (leb f.begin x.begin)) [ inl l ↦ absurd (ground arith) | inr l ↦ rw l ])
]

-- The searched suffix, put behind the fragments that the search skips.
abbrev from_prefix : CoverSet → LocalFragment → ℕ → CoverSet × Bool
from_prefix s f b = splice s f (find_begin f (drop b s) b)

from_prefix-insert :
    (s : CoverSet) (f : LocalFragment)
    → IsCover s
    → f.begin < f.end
    → from_prefix s f (prefix_length (ends_after f.begin) s) ≡ insert s f
from_prefix-insert [] f c n = splice-find_begin [] f
from_prefix-insert (x ∷ xs) f (m, b, c) n = elim (Bool-cases (ends_after f.begin x)) [
  | inl e ↦ rw e (splice-find_begin (x ∷ xs) f)
  | inr e ↦ rw e (
      rw
        (find_begin-suc f (drop (prefix_length (ends_after f.begin) xs) xs)
          (prefix_length (ends_after f.begin) xs))
        (splice-suc x xs f _
          ∙ ap (cons_first x) (from_prefix-insert xs f c n)
          ∙ insert-skip x xs f m n e))
]

-- The slow path of the code is the reference definition.
pub slow_path-insert :
    (s : CoverSet) (f : LocalFragment) → IsCover s → f.begin < f.end → slow_path s f ≡ insert s f
unfolding slow_path
slow_path-insert s f c n =
    rw (search_index-prefix_length (ends_after f.begin) s (ends_after-IsMonotone f.begin s c))
      (from_prefix-insert s f c n)

-- Where `f` ends past the set, the reference definition replaces the last fragment or appends.
abbrev fast_path : LocalFragment → CoverSet → LocalFragment → CoverSet × Bool
fast_path x xs f =
    if leb f.begin (last x xs).begin
    then (init x xs ++ f ∷ [], true)
    else ((x ∷ xs) ++ f ∷ [], true)

insert-pass :
    (x : LocalFragment) (xs : CoverSet) (f : LocalFragment)
    → x.end < f.end
    → x.begin < f.begin
    → insert (x ∷ xs) f ≡ cons_first x (insert xs f)
insert-pass x xs f p q = elim (Bool-cases (covers_more x f)) [
  | inl k ↦ absurd (ground arith)
  | inr k ↦
      rw k
        (elim (Bool-cases (leb f.begin x.begin)) [ inl l ↦ absurd (ground arith) | inr l ↦ rw l ])
]

cons_first-fast_path :
    (x y : LocalFragment) (ys : CoverSet) (f : LocalFragment)
    → cons_first x (fast_path y ys f) ≡ fast_path x (y ∷ ys) f
cons_first-fast_path x y ys f = elim (Bool-cases (leb f.begin (last y ys).begin)) [
  | inl e ↦ rw e
  | inr e ↦ rw e
]

fast_path-insert :
    (x : LocalFragment) (xs : CoverSet) (f : LocalFragment)
    → IsCover (x ∷ xs)
    → (last x xs).end < f.end
    → All (λ y. y.begin < f.begin) (init x xs)
    → fast_path x xs f ≡ insert (x ∷ xs) f
fast_path-insert x [] f c l a = ground arith
fast_path-insert x (y ∷ ys) f (n, b, c) l (p, a) =
    sym (cons_first-fast_path x y ys f)
    ∙ ap (cons_first x) (fast_path-insert y ys f c l a)
    ∙ sym (insert-pass x (y ∷ ys) f (omega (arith, end-le-last y ys c)) p)

-- `add` on a non-empty fragment is the reference definition.
pub add_nonempty-insert :
    (s : CoverSet) (f : LocalFragment)
    → IsCover s
    → f.begin < f.end
    → FitsLast s f
    → add_nonempty s f ≡ insert s f
unfolding add_nonempty
add_nonempty-insert [] f c n fits = refl
add_nonempty-insert (x ∷ xs) f c n fits = elim (Bool-cases (ltb (last x xs).end f.end)) [
  | inl e ↦ rw e (fast_path-insert x xs f c (ltb→lt _ _ e) (fits (ltb→lt _ _ e)))
  | inr e ↦ rw e (slow_path-insert (x ∷ xs) f c n)
]
