-- ===== src/Protocol/Validator.antt =====
-- v2/pkg/protocol/validator.go, and the validation of labels and label sets in
-- v2/pkg/protocol/label_extensions.go.
pub mod Accepts
use gazette.Prelude.{
  ℕ, zero, suc, ◌+◌, ◌≤◌, ◌≡◌, ◌↔◌, ◌⊎◌, inl, inr, refl, sym, ap, ◌∙◌, arith, Bool, true, false,
  ◌||◌, ◌&&◌, not, Option, none, some, List, [], ◌∷◌, ltb, leb, ◌==◌, if◌then◌else◌, Bytes,
  bytes_eq, bytes_lt, bytes_eq_iff, bytes_lt_irrefl, bytes_lt_trans, length, All, Bool-cases,
  Option-cases, Pairwise,
}
use gazette.Protocol.Label.{Label, LabelSet}

-- The characters of tokenAlphabet.
abbrev pub token_alphabet : ℕ → Bool
token_alphabet c =
    c == 45
    || c == 95
    || c == 43
    || c == 47
    || c == 46
    || (leb 65 c && leb c 90)
    || (leb 97 c && leb c 122)
    || (leb 48 c && leb c 57)

-- strings.Trim: both ends lose their characters of the set.
abbrev pub trim_left : (ℕ → Bool) → Bytes → Bytes
trim_left set [] = []
trim_left set (c ∷ cs) = let rest = trim_left set cs in if set c then rest else c ∷ cs

abbrev pub trim_right : (ℕ → Bool) → Bytes → Bytes
trim_right set [] = []
trim_right set (c ∷ cs) = elim (trim_right set cs) [
  | [] ↦ if set c then [] else c ∷ []
  | d ∷ ds ↦ c ∷ d ∷ ds
]

pub data Context : Type 0 where
  at_name at_value : Context
  at_label : ℕ → Context

pub data Fault : Type 0 where
  invalid_length not_a_token : Fault
  values_not_sorted empty_and_non_empty names_not_sorted : Fault

pub record ValidationError : Type 0 where
  pub context : List Context
  pub err : Fault

abbrev pub extend_context : ValidationError → Context → ValidationError
extend_context e c = record e { context = c ∷ e.context }

abbrev pub new_validation_error : Fault → ValidationError
new_validation_error f = record { context = []; err = f }

unfoldable pub validate_token : Bytes → ℕ → ℕ → Option ValidationError
validate_token n min max =
    if ltb (length n) min || ltb max (length n)
    then some (new_validation_error invalid_length)
    else if not (length (trim_right token_alphabet (trim_left token_alphabet n)) == 0)
    then some (new_validation_error not_a_token)
    else none

unfoldable pub validate_label : Label → Option ValidationError
unfolding validate_token
validate_label m = elim (validate_token m.name 2 64) [
  | some e ↦ some (extend_context e at_name)
  | none ↦ elim (validate_token m.value 0 1024) [
    | some e ↦ some (extend_context e at_value)
    | none ↦ none
  ]
]

-- A label, and the one before it.
abbrev pub order_fault : Option Label → Label → Option Fault
order_fault none x = none
order_fault (some w) x =
    if bytes_lt w.name x.name
    then none
    else if bytes_eq w.name x.name
    then (if not (bytes_lt w.value x.value)
        then some values_not_sorted
        else if bytes_eq w.value []
        then some empty_and_non_empty
        else none)
    else some names_not_sorted

unfoldable pub validate_from : ℕ → Option Label → LabelSet → Option ValidationError
unfolding validate_label
validate_from i before [] = none
validate_from i before (x ∷ xs) =
    let rest = validate_from (suc i) (some x) xs in
    elim (validate_label x) [
      | some e ↦ some (extend_context e (at_label i))
      | none ↦ elim (order_fault before x) [ some f ↦ some (new_validation_error f) | none ↦ rest ]
    ]

unfoldable pub validate_labels : LabelSet → Option ValidationError
unfolding validate_from
validate_labels set = validate_from 0 none set
