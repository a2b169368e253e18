-- ===== src/Protocol/Label/Split.antt =====
-- A label set in order (v2/pkg/protocol/label_extensions.go) splits at a name into the labels before
-- it, those of it and those after it.
use gazette.Prelude.{
  filter, get_elem?-drop, get_elem?, none, some, ℕ, zero, suc, ◌<◌, ◌≡◌, inl, inr, refl, sym, ap,
  Bool, true, false, not, List, [], ◌∷◌, ◌++◌, arith, if◌then◌else◌, Bool-cases, Bytes, bytes_eq,
  bytes_lt, bytes_eq_iff, bytes_lt_irrefl, bytes_lt_trans, bytes_lt_total, All, take, drop, length,
  test_at, map,
}
use gazette.Go.Search.{prefix_length, IsMonotone, search_index-prefix_length}
use gazette.Protocol.Label.{
  Label, LabelSet, name_from, find_name, name_end, values_while, values_of, value_of, remove,
}

-- No label has a lesser name than an earlier one.
abbrev pub IsSorted : LabelSet → Type 0
IsSorted [] = Unit
IsSorted (x ∷ xs) = All (λ y. bytes_lt y.name x.name ≡ false) xs × IsSorted xs

abbrev pub has_name : Bytes → Label → Bool
has_name name x = bytes_eq x.name name

-- After a label at or past the name, all are.
from_name :
    (name : Bytes) (x y : Label)
    → bytes_lt y.name x.name ≡ false
    → name_from name x ≡ true
    → name_from name y ≡ true
from_name name x y h k =
    ground (arith, bytes_lt_trans x.name y.name name, bytes_lt_total x.name y.name)

All-from_name :
    (name : Bytes) (x : Label) (ys : LabelSet)
    → All (λ y. bytes_lt y.name x.name ≡ false) ys
    → name_from name x ≡ true
    → All (λ y. name_from name y ≡ true) ys
All-from_name name x [] a h = tt
All-from_name name x (y ∷ ys) a h = (from_name name x y a.0 h, All-from_name name x ys a.1 h)

All-test_at :
    (p : Label → Bool) (xs : LabelSet)
    → All (λ y. p y ≡ true) xs
    → (m : ℕ) → m < length xs
    → test_at p xs m ≡ true
All-test_at p [] a m l = absurd (omega arith)
All-test_at p (x ∷ xs) a zero l = a.0
All-test_at p (x ∷ xs) a (suc m) l = All-test_at p xs a.1 m (omega arith)

name_from-IsMonotone : (name : Bytes) (xs : LabelSet) → IsSorted xs → IsMonotone (name_from name) xs
name_from-IsMonotone name [] o = tt
name_from-IsMonotone name (x ∷ xs) o = (
  λ q m l. All-test_at (name_from name) xs (All-from_name name x xs o.0 q) m l,
  name_from-IsMonotone name xs o.1,
)

pub find_name-prefix_length :
    (set : LabelSet) (name : Bytes)
    → IsSorted set
    → find_name set name ≡ prefix_length (name_from name) set
find_name-prefix_length set name o =
    search_index-prefix_length (name_from name) set (name_from-IsMonotone name set o)

-- A label at or past the name, and not of the name, is past it.
past_name :
    (name : Bytes) (x : Label)
    → name_from name x ≡ true
    → has_name name x ≡ false
    → bytes_lt name x.name ≡ true
past_name name x h k = ground (arith, bytes_lt_total name x.name, bytes_eq_iff x.name name)

other_name :
    (name : Bytes) (x y : Label)
    → bytes_lt name x.name ≡ true
    → bytes_lt y.name x.name ≡ false
    → has_name name y ≡ false
other_name name x y h k = ground (arith, bytes_eq_iff y.name name)

before_name : (name : Bytes) (x : Label) → name_from name x ≡ false → has_name name x ≡ false
before_name name x h = ground (arith, bytes_eq_iff x.name name, bytes_lt_irrefl name)

All-other_name :
    (name : Bytes) (x : Label) (ys : LabelSet)
    → bytes_lt name x.name ≡ true
    → All (λ y. bytes_lt y.name x.name ≡ false) ys
    → All (λ y. has_name name y ≡ false) ys
All-other_name name x [] h a = tt
All-other_name name x (y ∷ ys) h a = (other_name name x y h a.0, All-other_name name x ys h a.1)

filter-none :
    (name : Bytes) (xs : LabelSet)
    → All (λ y. has_name name y ≡ false) xs
    → filter (has_name name) xs ≡ []
filter-none name [] a = refl
filter-none name (x ∷ xs) a = rw a.0 (filter-none name xs a.1)

filter-rest :
    (name : Bytes) (xs : LabelSet)
    → All (λ y. has_name name y ≡ false) xs
    → filter (λ x. not (has_name name x)) xs ≡ xs
filter-rest name [] a = refl
filter-rest name (x ∷ xs) a = rw a.0 (ap (λ t. x ∷ t) (filter-rest name xs a.1))

name_end-suc :
    (name : Bytes) (ys : LabelSet) (b : ℕ) → name_end name ys (suc b) ≡ suc (name_end name ys b)
name_end-suc name [] b = refl
name_end-suc name (y ∷ ys) b = ground (arith, name_end-suc name ys (suc b))

-- The labels from the name on: those of it come first.
drop-name_end :
    (name : Bytes) (xs : LabelSet)
    → IsSorted xs
    → All (λ y. name_from name y ≡ true) xs
    → drop (name_end name xs 0) xs ≡ filter (λ x. not (has_name name x)) xs
drop-name_end name [] o a = refl
drop-name_end name (x ∷ xs) o a = elim (Bool-cases (has_name name x)) [
  | inl q ↦ rw (q, name_end-suc name xs 0) (drop-name_end name xs o.1 a.1)
  | inr q ↦ rw q (
      ap (λ t. x ∷ t)
        (sym (filter-rest name xs (All-other_name name x xs (past_name name x a.0 q) o.0))))
]

values_while-filter :
    (name : Bytes) (xs : LabelSet)
    → IsSorted xs
    → All (λ y. name_from name y ≡ true) xs
    → values_while name xs ≡ map (λ x. x.value) (filter (has_name name) xs)
values_while-filter name [] o a = refl
values_while-filter name (x ∷ xs) o a = elim (Bool-cases (has_name name x)) [
  | inl q ↦ rw q (ap (λ t. x.value ∷ t) (values_while-filter name xs o.1 a.1))
  | inr q ↦ rw (q, filter-none name xs (All-other_name name x xs (past_name name x a.0 q) o.0)) refl
]

pub cut :
    (name : Bytes) (set : LabelSet)
    → IsSorted set
    → take (prefix_length (name_from name) set) set
        ++ drop
            (name_end name
              (drop (prefix_length (name_from name) set) set)
              (prefix_length (name_from name) set))
            set
      ≡ filter (λ x. not (has_name name x)) set
cut name [] o = refl
cut name (x ∷ xs) o = elim (Bool-cases (name_from name x)) [
  | inl q ↦ rw q (drop-name_end name (x ∷ xs) o (q, All-from_name name x xs o.0 q))
  | inr q ↦
      rw
        (
          q,
          before_name name x q,
          name_end-suc name (drop (prefix_length (name_from name) xs) xs)
              (prefix_length (name_from name) xs),
        )
        (ap (λ t. x ∷ t) (cut name xs o.1))
]

-- In a set in order, Remove leaves exactly the labels of other names, in order.
pub remove-filter :
    (set : LabelSet) (name : Bytes)
    → IsSorted set
    → remove set name ≡ filter (λ x. not (has_name name x)) set
unfolding remove
remove-filter set name o = rw (find_name-prefix_length set name o) (cut name set o)

found :
    (name : Bytes) (set : LabelSet)
    → IsSorted set
    → values_while name (drop (prefix_length (name_from name) set) set)
      ≡ map (λ x. x.value) (filter (has_name name) set)
found name [] o = refl
found name (x ∷ xs) o = elim (Bool-cases (name_from name x)) [
  | inl q ↦ rw q (values_while-filter name (x ∷ xs) o (q, All-from_name name x xs o.0 q))
  | inr q ↦ rw (q, before_name name x q) (found name xs o.1)
]

-- In a set in order, ValuesOf gives the values of all labels of the name, in order.
pub values_of-filter :
    (set : LabelSet) (name : Bytes)
    → IsSorted set
    → values_of set name ≡ map (λ x. x.value) (filter (has_name name) set)
unfolding values_of
values_of-filter set name o = rw (find_name-prefix_length set name o) (found name set o)

abbrev pub head_or_empty : List Bytes → Bytes
head_or_empty [] = []
head_or_empty (v ∷ vs) = v

first_value :
    (name : Bytes) (xs : LabelSet)
    → elim (get_elem? xs 0) [ none ↦ [] | some x ↦ if bytes_eq x.name name then x.value else [] ]
      ≡ head_or_empty (values_while name xs)
first_value name [] = refl
first_value name (x ∷ xs) = ground arith

-- In any set, ValueOf is the first of ValuesOf, or empty if there are none.
pub value_of-values_of :
    (set : LabelSet) (name : Bytes) → value_of set name ≡ head_or_empty (values_of set name)
unfolding value_of values_of
value_of-values_of set name =
    rw (value_of, get_elem?-drop (find_name set name) set)
      (first_value name (drop (find_name set name) set))
