-- ===== src/Allocator/Examples.antt =====
-- The theorems on an item's changes at concrete assignments.
use mathlib.Core.List.{Permᴰ}
use mathlib.Core.List.Permᴰ
use gazette.Prelude.{
  ℕ, ◌<◌, ◌≡◌, refl, Bool, true, false, some, List, [], ◌∷◌, ◌++◌, ltb, arith, bytes_lt, All, Bytes,
}
use gazette.Allocator.ItemState.{
  Assignment, Changes, next_slot, walk, add_all, compare_assignment, count_consistent, release,
  init, constrain_removals, select, constrain_reorders, move_to, pack_from, build_pack_ops,
}
use gazette.Allocator.ItemState.Walk.{IsSorted, IsDifference, first_above, init-IsDifference}
use gazette.Allocator.ItemState.Removals.{IsConstrained, constrain_removals-IsConstrained}
use gazette.Allocator.ItemState.Packing.{Packs, build_pack_ops-Packs}
use gazette.Allocator.ItemState.Primary.{IsOrder, constrain_reorders-IsOrder}

-- An assignment of item "i" to a member of zone "z".
abbrev assigned : ℕ → ℕ → Assignment
assigned member slot = record {
  item_id = 105 ∷ [];
  member_zone = 122 ∷ [];
  member_suffix = member ∷ [];
  slot = slot;
}

abbrev current : List Assignment
current = assigned 1 2 ∷ assigned 2 0 ∷ assigned 4 1 ∷ []

abbrev desired : List Assignment
desired = assigned 2 0 ∷ assigned 3 0 ∷ []

abbrev changes : Changes
changes = record {
  add = assigned 3 3 ∷ [];
  remove = assigned 1 2 ∷ assigned 4 1 ∷ [];
  reorder = assigned 2 0 ∷ [];
}

init_runs : init current desired ≡ changes
unfolding init walk next_slot compare_assignment add_all bytes_lt
init_runs = refl

current-IsSorted : IsSorted current
unfolding compare_assignment bytes_lt
current-IsSorted = ((refl, (refl, tt)), ((refl, tt), (tt, tt)))

desired-IsSorted : IsSorted desired
unfolding compare_assignment bytes_lt
desired-IsSorted = ((refl, tt), (tt, tt))

init-IsDifference_example :
    IsDifference (first_above current) current desired (init current desired)
    × All (λ a. a.slot < first_above current) current
init-IsDifference_example = init-IsDifference current desired current-IsSorted desired-IsSorted

abbrev below_four : Bytes → Bool
below_four [] = false
below_four (m ∷ ms) = ltb m 4

-- Assignments to members below 4 are consistent.
abbrev consistent : Assignment → Bool
consistent a = below_four a.member_suffix

abbrev unsorted : List Assignment → List Assignment
unsorted as' = as'

-- Two are consistent and two are wanted: the first one sought may not go, and so neither is released.
constrain_removals_runs :
    constrain_removals consistent unsorted 2 current changes
    ≡ record changes { remove = []; reorder = assigned 2 0 ∷ assigned 1 2 ∷ assigned 4 1 ∷ [] }
unfolding constrain_removals release count_consistent
constrain_removals_runs = refl

changes-perm : Permᴰ (changes.remove ++ changes.reorder) current
changes-perm = Permᴰ.cons refl (Permᴰ.swap refl refl)

constrain_removals-IsConstrained_example :
    IsConstrained consistent 2 current changes.remove changes
      (constrain_removals consistent unsorted 2 current changes)
constrain_removals-IsConstrained_example =
    constrain_removals-IsConstrained consistent unsorted 2 current changes (λ xs. Permᴰ.refl xs)
      changes-perm

-- The load ratio of a member is its slot.
abbrev lower : Assignment → Assignment → Bool
lower a b = ltb a.slot b.slot

lower-irreflexive : (a : Assignment) → lower a a ≡ false
lower-irreflexive a = ground arith

lower-transitive : (a b c : Assignment) → lower a b ≡ true → lower b c ≡ true → lower a c ≡ true
lower-transitive a b c h k = ground (arith, h, k)

abbrev without_primary : List Assignment
without_primary = assigned 4 1 ∷ assigned 1 2 ∷ []

constrain_reorders_runs :
    constrain_reorders consistent lower unsorted without_primary ≡ assigned 1 2 ∷ assigned 4 1 ∷ []
unfolding constrain_reorders select
constrain_reorders_runs = refl

constrain_reorders-IsOrder_example :
    IsOrder consistent lower without_primary
      (constrain_reorders consistent lower unsorted without_primary)
    × Permᴰ (constrain_reorders consistent lower unsorted without_primary) without_primary
constrain_reorders-IsOrder_example =
    constrain_reorders-IsOrder consistent lower lower-irreflexive lower-transitive unsorted
      without_primary (λ xs. Permᴰ.refl xs)

-- The slots 1 and 3 are free; the assignment in slot 2 is moved to slot 1.
abbrev spread : List Assignment
spread = assigned 2 2 ∷ assigned 1 4 ∷ []

build_pack_ops_runs : build_pack_ops (assigned 3 0 ∷ spread) ≡ some (move_to (assigned 2 2) 1)
unfolding build_pack_ops pack_from
build_pack_ops_runs = refl

build_pack_ops-Packs_example :
    Packs 0 (assigned 3 0 ∷ spread) (build_pack_ops (assigned 3 0 ∷ spread))
build_pack_ops-Packs_example =
    build_pack_ops-Packs (assigned 3 0) spread refl
      ((omega arith, (omega arith, tt)), ((omega arith, tt), (tt, tt)))
