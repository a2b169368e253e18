-- ===== src/Allocator/ItemState.antt =====
-- How v2/pkg/allocator/item_state.go derives and constrains the changes of one item's assignments.
-- What the item and the allocator's state say of an assignment (consistency, load ratios, item
-- limits) and the sorts of Go's library are parameters.
pub mod Comparing
pub mod Walk
pub mod Removals
pub mod Primary
pub mod Packing
use gazette.Prelude.{
  ℕ, zero, suc, ◌+◌, ◌-◌, Bool, true, false, not, ◌&&◌, ◌||◌, Option, none, some, List, [], ◌∷◌,
  ◌++◌, ltb, leb, ◌==◌, if◌then◌else◌, Bytes, bytes_lt, length, take, drop,
}

pub record Assignment : Type 0 where
  pub item_id : Bytes
  pub member_zone : Bytes
  pub member_suffix : Bytes
  pub slot : ℕ

pub data Comparison : Type 0 where
  less same greater : Comparison

-- By the parts in turn; the slots are not compared.
abbrev pub compare_parts : Bytes → Bytes → Comparison → Comparison
compare_parts a b rest = if bytes_lt a b then less else if bytes_lt b a then greater else rest

unfoldable pub compare_assignment : Assignment → Assignment → Comparison
compare_assignment l r =
    compare_parts l.item_id r.item_id (
      compare_parts l.member_zone r.member_zone
        (compare_parts l.member_suffix r.member_suffix same))

-- The changes that are sought: assignments to add, to remove, and to keep.
pub record Changes : Type 0 where
  pub add : List Assignment
  pub remove : List Assignment
  pub reorder : List Assignment

abbrev pub no_changes : Changes
no_changes = record { add = []; remove = []; reorder = [] }

-- A slot greater than all in use.
unfoldable pub next_slot : ℕ → List Assignment → ℕ
next_slot slot [] = slot
next_slot slot (a ∷ current) =
    next_slot (if ltb slot (a.slot + 1) then a.slot + 1 else slot) current

-- The additions that are left when all current assignments are seen, in fresh slots.
unfoldable pub add_all : ℕ → List Assignment → List Assignment
add_all slot [] = []
add_all slot (d ∷ desired) = record d { slot = slot } ∷ add_all (suc slot) desired

abbrev pub adding : Assignment → Changes → Changes
adding a c = record c { add = a ∷ c.add }

abbrev pub removing : Assignment → Changes → Changes
removing a c = record c { remove = a ∷ c.remove }

abbrev pub keeping : Assignment → Changes → Changes
keeping a c = record c { reorder = a ∷ c.reorder }

-- The joint walk; each round of fuel passes an assignment of either list.
unfoldable pub walk : ℕ → ℕ → List Assignment → List Assignment → Changes
unfolding add_all compare_assignment
walk zero slot current desired = no_changes
walk (suc fuel) slot [] desired = record no_changes { add = add_all slot desired }
walk (suc fuel) slot (a ∷ current) [] = record no_changes { remove = a ∷ current }
walk (suc fuel) slot (a ∷ current) (d ∷ desired) = elim (compare_assignment a d) [
  | greater ↦ adding (record d { slot = slot }) (walk fuel (suc slot) (a ∷ current) desired)
  | less ↦ removing a (walk fuel slot current (d ∷ desired))
  | same ↦ keeping a (walk fuel slot current desired)
]

unfoldable pub init : List Assignment → List Assignment → Changes
unfolding walk next_slot
init current desired = walk (length current + length desired) (next_slot 0 current) current desired

module _ (is_consistent : Assignment → Bool) where
  unfoldable pub count_consistent : List Assignment → ℕ
  count_consistent [] = 0
  count_consistent (a ∷ as') =
      let rest = count_consistent as' in if is_consistent a then suc rest else rest

  -- The removals that are released, and those that are held back, while `n` assignments are
  -- consistent and `r` must be.
  unfoldable pub release : ℕ → ℕ → List Assignment → List Assignment × List Assignment
  release n r [] = ([], [])
  release n r (a ∷ remove) =
      let next = release (if is_consistent a then n - 1 else n) r remove in
      if ltb n r
      then ([], a ∷ remove)
      else if is_consistent a && n == r
      then ([], a ∷ remove)
      else (a ∷ next.0, next.1)

  -- `by_load_ratio` is sort.Slice on the load ratio.
  unfoldable pub constrain_removals :
      (List Assignment → List Assignment) → ℕ → List Assignment → Changes → Changes
  unfolding release count_consistent
  constrain_removals by_load_ratio r current c =
      let (removed, held) = release (count_consistent current) r (by_load_ratio c.remove) in
      record c { remove = removed; reorder = c.reorder ++ held }

  -- `lower` tells whether the load ratio of the first is lower than that of the second.
  module _ (lower : Assignment → Assignment → Bool) where
    abbrev pub better : Assignment → Assignment → Bool
    better a primary =
        is_consistent a && not (is_consistent primary)
        || (is_consistent a && is_consistent primary
            || not (is_consistent a) && not (is_consistent primary))
          && lower a primary

    -- The choice, with what came before it and what comes after.
    unfoldable pub select :
        List Assignment
        → Assignment
        → List Assignment
        → List Assignment
        → Assignment × List Assignment × List Assignment
    select before primary after [] = (primary, before, after)
    select before primary after (a ∷ as') =
        let chosen = select (before ++ primary ∷ after) a [] as' in
        let kept = select before primary (after ++ a ∷ []) as' in
        if better a primary then chosen else kept

    abbrev pub promoted : Assignment × List Assignment × List Assignment → List Assignment
    promoted (primary, before, after) = primary ∷ before ++ after

    -- `by_slot` is sort.Slice on the slot.
    abbrev pub with_primary : List Assignment → List Assignment
    with_primary [] = []
    with_primary (a ∷ as') = if a.slot == 0 then a ∷ as' else promoted (select [] a [] as')

    unfoldable pub constrain_reorders :
        (List Assignment → List Assignment) → List Assignment → List Assignment
    unfolding select
    constrain_reorders by_slot reorder = with_primary (by_slot reorder)

-- `is_full` tells whether the member has as many items as its limit allows; `none` is no such member,
-- a panic.
unfoldable pub constrain_adds :
    (Assignment → Option Bool) → List Assignment → Option (List Assignment)
constrain_adds is_full [] = some []
constrain_adds is_full (a ∷ add) =
    let rest = constrain_adds is_full add in
    elim (is_full a) [
      | none ↦ none
      | some true ↦ rest
      | some false ↦ elim rest [ none ↦ none | some kept ↦ some (a ∷ kept) ]
    ]

-- An assignment's move to another slot: what is deleted, and what is put in its place.
pub record Move : Type 0 where
  pub current : Assignment
  pub moved : Assignment

abbrev pub move_to : Assignment → ℕ → Move
move_to a slot = record { current = a; moved = record a { slot = slot } }

-- The promotion of the first assignment that is kept.
unfoldable pub build_promote_ops : List Assignment → Option Move
build_promote_ops [] = none
build_promote_ops (a ∷ reorder) = if a.slot == 0 then none else some (move_to a 0)

-- The first assignment that is not in the slot of its place, from place `i` on.
unfoldable pub pack_from : ℕ → List Assignment → Option Move
pack_from i [] = none
pack_from i (a ∷ reorder) =
    let rest = pack_from (suc i) reorder in if a.slot == i then rest else some (move_to a i)

-- The first place is left to the promotion.
unfoldable pub build_pack_ops : List Assignment → Option Move
unfolding pack_from
build_pack_ops [] = none
build_pack_ops (a ∷ reorder) = pack_from 1 reorder
