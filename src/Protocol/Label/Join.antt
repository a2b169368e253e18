-- ===== src/Protocol/Label/Join.antt =====
-- The join of two label sets, and what v2/pkg/protocol/label_extensions.go makes of it: the algebra
-- of sets and the matching of selectors. A join stands at what is left of both sets.
pub mod Groups
pub mod Algebra
pub mod Values
pub mod Matching
pub mod Selecting
use gazette.Prelude.{
  ℕ, zero, suc, ◌+◌, Bool, true, false, ◌||◌, ◌&&◌, not, Option, none, some, List, [], ◌∷◌, ◌++◌,
  if◌then◌else◌, Bytes, bytes_eq, bytes_lt, length,
}
use gazette.Protocol.Label.{Label, LabelSet}

-- The labels of one name, of the left set and of the right.
pub record Cursor : Type 0 where
  pub left : LabelSet
  pub right : LabelSet

-- The leading labels of a name, and the others.
abbrev pub name_group : Bytes → LabelSet → LabelSet × LabelSet
name_group name [] = ([], [])
name_group name (x ∷ xs) =
    let rest = name_group name xs in
    if bytes_eq x.name name then (x ∷ rest.0, rest.1) else ([], x ∷ xs)

pub record Joined : Type 0 where
  pub cursor : Cursor
  pub left : LabelSet
  pub right : LabelSet

abbrev pub step_left : Label → LabelSet → LabelSet → Joined
step_left x xs rs =
    let l = name_group x.name xs in
    record { cursor = record { left = x ∷ l.0; right = [] }; left = l.1; right = rs }

abbrev pub step_right : Label → LabelSet → LabelSet → Joined
step_right y ys ls =
    let r = name_group y.name ys in
    record { cursor = record { left = []; right = y ∷ r.0 }; left = ls; right = r.1 }

abbrev pub step_both : Label → LabelSet → Label → LabelSet → Joined
step_both x xs y ys =
    let l = name_group x.name xs in
    let r = name_group y.name ys in
    record { cursor = record { left = x ∷ l.0; right = y ∷ r.0 }; left = l.1; right = r.1 }

-- `none` is that both sets are complete.
unfoldable pub next : LabelSet → LabelSet → Option Joined
next [] [] = none
next [] (y ∷ ys) = some (step_right y ys [])
next (x ∷ xs) [] = some (step_left x xs [])
next (x ∷ xs) (y ∷ ys) =
    if bytes_eq x.name y.name
    then some (step_both x xs y ys)
    else if bytes_lt x.name y.name
    then some (step_left x xs (y ∷ ys))
    else some (step_right y ys (x ∷ xs))

-- The cursors that `next` gives, one after another.
unfoldable pub cursors : ℕ → LabelSet → LabelSet → List Cursor
unfolding next
cursors zero ls rs = []
cursors (suc fuel) ls rs = elim (next ls rs) [
  | none ↦ []
  | some j ↦ j.cursor ∷ cursors fuel j.left j.right
]

-- Each step takes a label off a set.
abbrev pub all_cursors : LabelSet → LabelSet → List Cursor
unfolding cursors
all_cursors ls rs = cursors (length ls + length rs) ls rs

abbrev pub values_equal : LabelSet → LabelSet → Bool
values_equal [] [] = true
values_equal [] (y ∷ ys) = false
values_equal (x ∷ xs) [] = false
values_equal (x ∷ xs) (y ∷ ys) = bytes_eq x.value y.value && values_equal xs ys

abbrev pub prefer_left : LabelSet → LabelSet → LabelSet
prefer_left [] rs = rs
prefer_left (x ∷ xs) rs = x ∷ xs

abbrev pub both_equal : LabelSet → LabelSet → LabelSet
both_equal ls rs = if values_equal ls rs then ls else []

abbrev pub not_equal : LabelSet → LabelSet → LabelSet
not_equal ls rs = if not (values_equal ls rs) then ls else []

-- A loop over the cursors that appends labels.
abbrev pub append_each : (LabelSet → LabelSet → LabelSet) → List Cursor → LabelSet
append_each emit [] = []
append_each emit (c ∷ cs) = emit c.left c.right ++ append_each emit cs

unfoldable pub union_label_sets : LabelSet → LabelSet → LabelSet
unfolding all_cursors
union_label_sets lhs rhs = append_each prefer_left (all_cursors lhs rhs)

unfoldable pub intersect_label_sets : LabelSet → LabelSet → LabelSet
unfolding all_cursors
intersect_label_sets lhs rhs = append_each both_equal (all_cursors lhs rhs)

unfoldable pub subtract_label_set : LabelSet → LabelSet → LabelSet
unfolding all_cursors
subtract_label_set lhs rhs = append_each not_equal (all_cursors lhs rhs)

-- Whether a value of the selector's labels of a name is among those of the set's.
unfoldable pub values_matched : ℕ → LabelSet → LabelSet → Bool
values_matched zero a b = false
values_matched (suc fuel) [] b = false
values_matched (suc fuel) (x ∷ xs) [] = false
values_matched (suc fuel) (x ∷ xs) (y ∷ ys) =
    let advance_a = values_matched fuel xs (y ∷ ys) in
    let advance_b = values_matched fuel (x ∷ xs) ys in
    if bytes_eq x.value [] || bytes_eq x.value y.value
    then true
    else if bytes_lt x.value y.value
    then advance_a
    else advance_b

abbrev pub cursor_matched : Cursor → Bool
unfolding values_matched
cursor_matched c = values_matched (length c.left + length c.right) c.left c.right

abbrev pub match_cursors : Bool → List Cursor → Bool
unfolding cursor_matched
match_cursors req_all [] = req_all
match_cursors req_all (c ∷ cs) =
    let rest = match_cursors req_all cs in
    elim c.left [
      | [] ↦ rest
      | x ∷ xs ↦
          if not req_all && cursor_matched c
          then true
          else if req_all && not (cursor_matched c)
          then false
          else rest
    ]

unfoldable pub match_selector : LabelSet → LabelSet → Bool → Bool
unfolding all_cursors match_cursors
match_selector sel set req_all = match_cursors req_all (all_cursors sel set)

pub record LabelSelector : Type 0 where
  pub include : LabelSet
  pub exclude : LabelSet

unfoldable pub matches : LabelSelector → LabelSet → Bool
unfolding match_selector
matches m s =
    if match_selector m.exclude s false
    then false
    else if not (match_selector m.include s true)
    then false
    else true
