-- ===== src/Protocol/Examples.antt =====
-- The theorems on label sets at a concrete set.
use gazette.Prelude.{
  if◌then◌else◌, ◌&&◌, ◌||◌, none, ◌↔◌, ◌≡◌, refl, [], ◌∷◌, not, Bytes, bytes_lt, bytes_eq,
}
use gazette.Protocol.Label.{Label, LabelSet}
use gazette.Protocol.Label.Split.{IsSorted}
use gazette.Protocol.Label.{add_value}
use gazette.Protocol.Label.Adding.{Ascends, has_label, add_value-Ascends}
use gazette.Protocol.Label.Join.{
  prefer_left, values_equal, union_label_sets, intersect_label_sets, subtract_label_set,
  LabelSelector, matches,
}
use gazette.Protocol.Label.Join.Algebra.{of_name, algebra-of_name}
use gazette.Protocol.Label.Join.Values.{any, all}
use gazette.Protocol.Label.Join.Matching.{has_match, IsOrdered}
use gazette.Protocol.Label.Join.Selecting.{name_met, matches-has_match}
use gazette.Protocol.Validator.{validate_labels}
use gazette.Protocol.Validator.Accepts.{IsValid, validate_labels-IsValid}

abbrev label : Bytes → Bytes → Label
label n v = record { name = n; value = v }

abbrev labelled : LabelSet
labelled =
    label (1 ∷ []) (5 ∷ [])
    ∷ label (2 ∷ []) (6 ∷ [])
    ∷ label (2 ∷ []) (7 ∷ [])
    ∷ label (3 ∷ []) []
    ∷ []

labelled-IsSorted : IsSorted labelled
unfolding bytes_lt
labelled-IsSorted = ((refl, (refl, (refl, tt))), ((refl, (refl, tt)), ((refl, tt), (tt, tt))))

labelled-Ascends : Ascends labelled
unfolding bytes_lt bytes_eq
labelled-Ascends = ((refl, (refl, (refl, tt))), ((refl, (refl, tt)), ((refl, tt), (tt, tt))))

labelled-IsOrdered : IsOrdered labelled
unfolding bytes_lt bytes_eq
labelled-IsOrdered = ((refl, (refl, (refl, tt))), ((refl, (refl, tt)), ((refl, tt), (tt, tt))))

add_value-Ascends_example :
    Ascends (add_value labelled (2 ∷ []) (8 ∷ []))
    × ((z : Label)
        → has_label z (add_value labelled (2 ∷ []) (8 ∷ []))
          ≡ ((bytes_eq (2 ∷ []) z.name && bytes_eq (8 ∷ []) z.value) || has_label z labelled))
add_value-Ascends_example = add_value-Ascends labelled (2 ∷ []) (8 ∷ []) labelled-Ascends

abbrev others : LabelSet
others = label (2 ∷ []) (6 ∷ []) ∷ label (4 ∷ []) (8 ∷ []) ∷ []

others-IsSorted : IsSorted others
unfolding bytes_lt
others-IsSorted = ((refl, tt), (tt, tt))

algebra-of_name_example :
    (of_name (2 ∷ []) (union_label_sets labelled others)
      ≡ prefer_left (of_name (2 ∷ []) labelled) (of_name (2 ∷ []) others))
    × (of_name (2 ∷ []) (intersect_label_sets labelled others) ≡ (
        if values_equal (of_name (2 ∷ []) labelled) (of_name (2 ∷ []) others)
        then of_name (2 ∷ []) labelled
        else []))
    × (of_name (2 ∷ []) (subtract_label_set labelled others) ≡ (
        if values_equal (of_name (2 ∷ []) labelled) (of_name (2 ∷ []) others)
        then []
        else of_name (2 ∷ []) labelled))
algebra-of_name_example = algebra-of_name (2 ∷ []) labelled others labelled-IsSorted others-IsSorted

-- Any label 3, label 2 of value 7, and no label 4.
abbrev selector : LabelSelector
selector = record {
  include = label (2 ∷ []) (7 ∷ []) ∷ label (3 ∷ []) [] ∷ [];
  exclude = label (4 ∷ []) [] ∷ [];
}

selector_include-IsOrdered : IsOrdered selector.include
unfolding bytes_lt bytes_eq
selector_include-IsOrdered = ((refl, tt), (tt, tt))

matches-has_match_example : matches selector labelled ≡ (
    not (any (has_match labelled) selector.exclude)
    && all (name_met selector.include labelled) selector.include)
matches-has_match_example =
    matches-has_match selector labelled selector_include-IsOrdered (tt, tt) labelled-IsOrdered

-- The names aa and bb.
abbrev valid : LabelSet
valid = label (97 ∷ 97 ∷ []) (99 ∷ []) ∷ label (98 ∷ 98 ∷ []) [] ∷ []

validate_labels-IsValid_example : (validate_labels valid ≡ none) ↔ IsValid valid
validate_labels-IsValid_example = validate_labels-IsValid valid
