-- ===== src/Protocol/Label/Join/Algebra.antt =====
-- Union, intersection and difference of label sets (v2/pkg/protocol/label_extensions.go), by name.
use mathlib.Core.List.{append-nil}
use gazette.Prelude.{
  filter, ℕ, zero, suc, ◌+◌, ◌≤◌, ◌≡◌, inl, inr, refl, sym, ap, ◌∙◌, Bool, true, false, not, List,
  [], ◌∷◌, ◌++◌, arith, if◌then◌else◌, Bool-cases, Bytes, bytes_eq, bytes_eq_iff, bytes_lt_irrefl,
  All, length,
}
use gazette.Protocol.Label.{LabelSet}
use gazette.Protocol.Label.Split.{IsSorted, has_name}
use gazette.Protocol.Label.Join.{
  cursors, all_cursors, append_each, prefer_left, both_equal, not_equal, values_equal,
  union_label_sets, intersect_label_sets, subtract_label_set,
}
use gazette.Protocol.Label.Join.Groups.{Later, Groups, next-Steps}

abbrev pub of_name : Bytes → LabelSet → LabelSet
of_name name xs = filter (has_name name) xs

abbrev pub Named : Bytes → LabelSet → Type 0
Named name xs = All (λ x. bytes_eq x.name name ≡ true) xs

pub filter-append :
    {A : Type 0} (p : A → Bool) (xs ys : List A) → filter p (xs ++ ys) ≡ filter p xs ++ filter p ys
filter-append p [] ys = refl
filter-append p (x ∷ xs) ys = elim (Bool-cases (p x)) [
  | inl q ↦ rw q (ap (λ t. x ∷ t) (filter-append p xs ys))
  | inr q ↦ rw q (filter-append p xs ys)
]

pub of_name-Later : (name : Bytes) (xs : LabelSet) → Later name xs → of_name name xs ≡ []
of_name-Later name [] a = refl
of_name-Later name (x ∷ xs) a =
    ground (arith, a.0, bytes_eq_iff x.name name, bytes_lt_irrefl name, of_name-Later name xs a.1)

pub of_name-same : (name : Bytes) (xs : LabelSet) → Named name xs → of_name name xs ≡ xs
of_name-same name [] a = refl
of_name-same name (x ∷ xs) a = rw a.0 (ap (λ t. x ∷ t) (of_name-same name xs a.1))

pub of_name-other :
    (j name : Bytes) (xs : LabelSet) → bytes_eq name j ≡ false → Named name xs → of_name j xs ≡ []
of_name-other j name [] h a = refl
of_name-other j name (x ∷ xs) h a = ground (
  arith,
  a.0,
  h,
  bytes_eq_iff x.name name,
  bytes_eq_iff x.name j,
  bytes_eq_iff name j,
  of_name-other j name xs h a.1,
)

-- The labels of the group's name are the group, and those of other names are in the rest.
Groups-own :
    (name : Bytes) (xs group rest : LabelSet) → Groups name xs group rest → of_name name xs ≡ group
Groups-own name xs group rest g =
    ap (of_name name) g.whole
    ∙ filter-append (has_name name) group rest
    ∙ ap (λ t. of_name name group ++ t) (of_name-Later name rest g.later)
    ∙ append-nil (of_name name group)
    ∙ of_name-same name group g.named

Groups-others :
    (j name : Bytes) (xs group rest : LabelSet)
    → bytes_eq name j ≡ false
    → Groups name xs group rest
    → of_name j xs ≡ of_name j rest
Groups-others j name xs group rest h g =
    ap (of_name j) g.whole
    ∙ filter-append (has_name j) group rest
    ∙ ap (λ t. t ++ of_name j rest) (of_name-other j name group h g.named)

-- What a loop over the join may append: nothing for no labels, and labels of the name for a name's.
abbrev pub IsEmitter : (LabelSet → LabelSet → LabelSet) → Type 0
IsEmitter emit =
    (emit [] [] ≡ [])
    × ((name : Bytes) (a b : LabelSet) → Named name a → Named name b → Named name (emit a b))

append_each-of_name :
    (emit : LabelSet → LabelSet → LabelSet)
    → IsEmitter emit
    → (j : Bytes) (fuel : ℕ) (ls rs : LabelSet) → IsSorted ls
    → IsSorted rs
    → length ls + length rs ≤ fuel
    → of_name j (append_each emit (cursors fuel ls rs)) ≡ emit (of_name j ls) (of_name j rs)
unfolding cursors
append_each-of_name emit e j zero [] [] s t n = sym e.0
append_each-of_name emit e j zero [] (y ∷ ys) s t n = absurd (omega arith)
append_each-of_name emit e j zero (x ∷ xs) rs s t n = absurd (omega arith)
append_each-of_name emit e j (suc fuel) ls rs s t n = elim (next-Steps ls rs s t) [
  | inl (p, q, h) ↦ rw (cursors, h, p, q) (sym e.0)
  | inr (d, h, st) ↦
      let a = d.cursor.left in
      let b = d.cursor.right in
      let rest =
        append_each-of_name emit e j fuel d.left d.right st.left.sorted st.right.sorted
          (omega (arith, n, st.less)) in
      let split =
        filter-append (has_name j) (emit a b) (append_each emit (cursors fuel d.left d.right)) in
      elim (Bool-cases (bytes_eq st.name j)) [
        | inl k ↦
            let i = (bytes_eq_iff st.name j).0 k in
            let own : (of_name j ls ≡ a) × (of_name j rs ≡ b) = (
              rw (sym i) (Groups-own st.name ls a d.left st.left),
              rw (sym i) (Groups-own st.name rs b d.right st.right),
            ) in
            let none_left : (of_name j d.left ≡ []) × (of_name j d.right ≡ []) = (
              rw (sym i) (of_name-Later st.name d.left st.left.later),
              rw (sym i) (of_name-Later st.name d.right st.right.later),
            ) in
            let emitted : of_name j (emit a b) ≡ emit a b =
              rw (sym i)
                (of_name-same st.name (emit a b) (e.1 st.name a b st.left.named st.right.named)) in
            rw (cursors, h, split, emitted, rest, none_left.0, none_left.1, e.0, own.0, own.1)
              (append-nil (emit a b))
        | inr k ↦
            let emitted =
              of_name-other j st.name (emit a b) k (e.1 st.name a b st.left.named st.right.named) in
            rw
              (
                cursors,
                h,
                split,
                emitted,
                rest,
                Groups-others j st.name ls a d.left k st.left,
                Groups-others j st.name rs b d.right k st.right,
              )
              refl
      ]
]

prefer_left-IsEmitter : IsEmitter prefer_left
prefer_left-IsEmitter = (refl, named)
  where
    named :
        (name : Bytes) (a b : LabelSet) → Named name a → Named name b → Named name (prefer_left a b)
    named name [] b h k = k
    named name (x ∷ xs) b h k = h

if-Named :
    (name : Bytes) (t : Bool) (a : LabelSet) → Named name a → Named name (if t then a else [])
if-Named name true a h = h
if-Named name false a h = tt

union-of_name :
    (j : Bytes) (lhs rhs : LabelSet)
    → IsSorted lhs
    → IsSorted rhs
    → of_name j (union_label_sets lhs rhs) ≡ prefer_left (of_name j lhs) (of_name j rhs)
unfolding union_label_sets all_cursors
union-of_name j lhs rhs s t =
    append_each-of_name prefer_left prefer_left-IsEmitter j (length lhs + length rhs) lhs rhs s t
      (omega arith)

intersect-of_name :
    (j : Bytes) (lhs rhs : LabelSet)
    → IsSorted lhs
    → IsSorted rhs
    → of_name j (intersect_label_sets lhs rhs)
      ≡ (if values_equal (of_name j lhs) (of_name j rhs) then of_name j lhs else [])
unfolding intersect_label_sets all_cursors
intersect-of_name j lhs rhs s t =
    append_each-of_name both_equal (refl, λ name a b h k. if-Named name (values_equal a b) a h) j
      (length lhs + length rhs) lhs rhs s t (omega arith)

subtract-of_name :
    (j : Bytes) (lhs rhs : LabelSet)
    → IsSorted lhs
    → IsSorted rhs
    → of_name j (subtract_label_set lhs rhs)
      ≡ (if values_equal (of_name j lhs) (of_name j rhs) then [] else of_name j lhs)
unfolding subtract_label_set all_cursors
subtract-of_name j lhs rhs s t =
    append_each-of_name not_equal (refl, λ name a b h k. if-Named name (not (values_equal a b)) a h)
      j (length lhs + length rhs) lhs rhs s t (omega arith)
    ∙ swapped (values_equal (of_name j lhs) (of_name j rhs)) (of_name j lhs)
  where
    swapped : (t : Bool) (a : LabelSet) → (if not t then a else []) ≡ (if t then [] else a)
    swapped true a = refl
    swapped false a = refl

-- In sets that are in order of names, for each name: UnionLabelSets has the labels of the left set,
-- or those of the right if the left has none; IntersectLabelSets has those of the left set if both
-- sets have the same values of the name, in order, and else none; SubtractLabelSet has those of the
-- left set unless both sets have the same values of the name, in order, and else none.
pub algebra-of_name :
    (j : Bytes) (lhs rhs : LabelSet)
    → IsSorted lhs
    → IsSorted rhs
    → (of_name j (union_label_sets lhs rhs) ≡ prefer_left (of_name j lhs) (of_name j rhs))
      × (of_name j (intersect_label_sets lhs rhs)
          ≡ (if values_equal (of_name j lhs) (of_name j rhs) then of_name j lhs else []))
      × (of_name j (subtract_label_set lhs rhs)
          ≡ (if values_equal (of_name j lhs) (of_name j rhs) then [] else of_name j lhs))
algebra-of_name j lhs rhs s t =
    (union-of_name j lhs rhs s t, intersect-of_name j lhs rhs s t, subtract-of_name j lhs rhs s t)
