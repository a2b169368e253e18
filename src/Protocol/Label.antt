-- ===== src/Protocol/Label.antt =====
-- Label sets of v2/pkg/protocol/label_extensions.go: the lookups and changes by name.
pub mod Split
pub mod Setting
pub mod Join
pub mod Adding
use gazette.Prelude.{
  ℕ, zero, suc, ◌+◌, Bool, true, false, ◌&&◌, not, Option, none, some, List, [], ◌∷◌, ◌++◌,
  if◌then◌else◌, ◌==◌, Bytes, bytes_eq, bytes_lt, length, take, drop, test_at, get_elem?,
}
use gazette.Go.Search.{search_index}

pub record Label : Type 0 where
  pub name : Bytes
  pub value : Bytes

abbrev pub LabelSet : Type 0
LabelSet = List Label

-- The test of the searches: `Name >= name`.
abbrev pub name_from : Bytes → Label → Bool
name_from name x = not (bytes_lt x.name name)

abbrev pub find_name : LabelSet → Bytes → ℕ
find_name set name = search_index (length set) (test_at (name_from name) set)

-- The end of the labels of the name, from an index on.
abbrev pub name_end : Bytes → LabelSet → ℕ → ℕ
name_end name [] end = end
name_end name (x ∷ xs) end =
    let rest = name_end name xs (suc end) in if bytes_eq x.name name then rest else end

abbrev pub values_while : Bytes → LabelSet → List Bytes
values_while name [] = []
values_while name (x ∷ xs) =
    let rest = values_while name xs in if bytes_eq x.name name then x.value ∷ rest else []

unfoldable pub values_of : LabelSet → Bytes → List Bytes
values_of set name = values_while name (drop (find_name set name) set)

unfoldable pub value_of : LabelSet → Bytes → Bytes
value_of set name = elim (get_elem? set (find_name set name)) [
  | none ↦ []
  | some x ↦ if bytes_eq x.name name then x.value else []
]

-- The label takes the place of those of its name, or is inserted where they would begin.
unfoldable pub set_value : LabelSet → Bytes → Bytes → LabelSet
set_value set name value =
    let begin = find_name set name in
    let end = name_end name (drop begin set) begin in
    let label : Label = record { name = name; value = value } in
    if begin == end
    then take begin set ++ label ∷ drop begin set
    else take begin set ++ label ∷ drop end set

unfoldable pub remove : LabelSet → Bytes → LabelSet
remove set name =
    let begin = find_name set name in
    take begin set ++ drop (name_end name (drop begin set) begin) set

-- The test of the search of AddValue: the label is not before the name and value.
abbrev pub pair_from : Bytes → Bytes → Label → Bool
pair_from name value x =
    if not (bytes_eq x.name name) then bytes_lt name x.name else not (bytes_lt x.value value)

abbrev pub is_label : Bytes → Bytes → Option Label → Bool
is_label name value none = false
is_label name value (some x) = bytes_eq x.name name && bytes_eq x.value value

-- The label is inserted in order, unless it is there.
unfoldable pub add_value : LabelSet → Bytes → Bytes → LabelSet
add_value set name value =
    let ind = search_index (length set) (test_at (pair_from name value) set) in
    if is_label name value (get_elem? set ind)
    then set
    else take ind set ++ record { name = name; value = value } ∷ drop ind set
