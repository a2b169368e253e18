-- ===== src/Protocol/Label/Setting.antt =====
-- LabelSet.SetValue of v2/pkg/protocol/label_extensions.go.
use gazette.Prelude.{
  filter, ℕ, ◌≡◌, inl, inr, refl, ap, ◌∙◌, Bool, not, [], ◌∷◌, ◌++◌, arith, ◌==◌, Bool-cases, Bytes,
  bytes_eq_iff, take, drop,
}
use gazette.Go.Search.{prefix_length}
use gazette.Protocol.Label.{Label, LabelSet, name_from, find_name, name_end, set_value}
use gazette.Protocol.Label.Split.{has_name, IsSorted, find_name-prefix_length, cut}

abbrev pub label_of : Bytes → Bytes → Label
label_of name value = record { name = name; value = value }

abbrev pub other : Bytes → Label → Bool
other name x = not (has_name name x)

filter-insert :
    (name value : Bytes) (pre post : LabelSet)
    → filter (other name) (pre ++ label_of name value ∷ post) ≡ filter (other name) (pre ++ post)
filter-insert name value [] post = ground (arith, bytes_eq_iff name name)
filter-insert name value (x ∷ pre) post = ground (arith, filter-insert name value pre post)

filter-only :
    (name value : Bytes) (pre post : LabelSet)
    → filter (has_name name) (pre ++ post) ≡ []
    → filter (has_name name) (pre ++ label_of name value ∷ post) ≡ label_of name value ∷ []
filter-only name value [] post h = ground (arith, bytes_eq_iff name name)
filter-only name value (x ∷ pre) post h = ground (arith, filter-only name value pre post)

filter-again :
    (name : Bytes) (xs : LabelSet)
    → (filter (other name) (filter (other name) xs) ≡ filter (other name) xs)
      × (filter (has_name name) (filter (other name) xs) ≡ [])
filter-again name [] = (refl, refl)
filter-again name (x ∷ xs) = ground (arith, filter-again name xs)

set_value-cut :
    (set : LabelSet) (name value : Bytes) (begin : ℕ)
    → find_name set name ≡ begin
    → set_value set name value
      ≡ take begin set ++ label_of name value ∷ drop (name_end name (drop begin set) begin) set
unfolding set_value
set_value-cut set name value begin h =
    elim (Bool-cases (begin == name_end name (drop begin set) begin)) [
      | inl q ↦
          rw (h, q)
            (ap (λ n. take begin set ++ label_of name value ∷ drop n set) (ground (arith, q)))
      | inr q ↦ rw (h, q) refl
    ]

-- In a set in order, SetValue leaves exactly one label of the name, which has the value, and all
-- labels of other names, in order.
pub set_value-filter :
    (set : LabelSet) (name value : Bytes)
    → IsSorted set
    → (filter (has_name name) (set_value set name value) ≡ label_of name value ∷ [])
      × (filter (other name) (set_value set name value) ≡ filter (other name) set)
set_value-filter set name value o =
    let k = prefix_length (name_from name) set in
    let e = name_end name (drop k set) k in
    let c = cut name set o in
    let again = filter-again name set in
    let s = set_value-cut set name value k (find_name-prefix_length set name o) in
    (
      ap (filter (has_name name)) s
          ∙ filter-only name value (take k set) (drop e set)
              (ap (filter (has_name name)) c ∙ again.1),
      ap (filter (other name)) s
          ∙ filter-insert name value (take k set) (drop e set)
          ∙ ap (filter (other name)) c
          ∙ again.0,
    )
