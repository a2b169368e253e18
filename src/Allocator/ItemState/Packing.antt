-- ===== src/Allocator/ItemState/Packing.antt =====
-- The one assignment that v2/pkg/allocator/item_state.go packs into a lower slot.
use mathlib.Core.Path.{subst}
use gazette.Prelude.{
  ℕ, suc, ◌+◌, ◌≤◌, ◌<◌, ◌≡◌, ◌≢◌, refl, ap, Option, none, some, List, [], ◌∷◌, ◌++◌, arith, ◌==◌,
  Bool-cases, inl, inr, length, All, Pairwise,
}
use gazette.Allocator.ItemState.{Assignment, Move, move_to, pack_from, build_pack_ops}

abbrev pub InLowerSlot : Assignment → Assignment → Type 0
InLowerSlot a b = a.slot < b.slot

-- The assignments are in the slots from `i` on, without a gap.
abbrev pub IsPacked : ℕ → List Assignment → Type 0
IsPacked i [] = Unit
IsPacked i (a ∷ as') = (a.slot ≡ i) × IsPacked (suc i) as'

-- Nothing is moved if each assignment is in the slot of its place. Otherwise it is the first one that
-- is not: it is above the slot of its place, which is free, and it alone changes, in the slot alone.
pub record Moves (i : ℕ) (as' : List Assignment) (m : Move) : Type 0 where
  pub before : List Assignment
  pub after : List Assignment
  pub split : as' ≡ before ++ m.current ∷ after
  pub packed : IsPacked i before
  pub above : i + length before < m.current.slot
  pub changed : m.moved ≡ record (m.current) { slot = i + length before }
  pub free : All (λ a. a.slot ≢ m.moved.slot) as'

abbrev pub Packs : ℕ → List Assignment → Option Move → Type 0
Packs i as' none = IsPacked i as'
Packs i as' (some m) = Moves i as' m

slot_free : (i : ℕ) (as' : List Assignment) → All (λ b. i < b.slot) as' → All (λ a. a.slot ≢ i) as'
slot_free i [] all = tt
slot_free i (a ∷ as') all = ((λ e. absurd (omega (arith, e, all.0))), slot_free i as' all.1)

raise :
    (i j : ℕ) (as' : List Assignment)
    → i ≤ j
    → All (λ b. j < b.slot) as'
    → All (λ b. i < b.slot) as'
raise i j [] h all = tt
raise i j (a ∷ as') h all = (omega (arith, h, all.0), raise i j as' h all.1)

slot_at :
    (m : Move) (k l : ℕ)
    → k ≡ l
    → m.moved ≡ record (m.current) { slot = k }
    → m.moved ≡ record (m.current) { slot = l }
slot_at m k l e h = subst (λ t. m.moved ≡ record (m.current) { slot = t }) e h

first_packed :
    (i : ℕ) (a : Assignment) (as' : List Assignment) (o : Option Move)
    → a.slot ≡ i
    → Packs (suc i) as' o
    → Packs i (a ∷ as') o
first_packed i a as' none e p = (e, p)
first_packed i a as' (some m) e p =
    let at : suc i + length p.before ≡ i + suc (length p.before) = omega arith in
    record {
      before = a ∷ p.before;
      after = p.after;
      split = ap (λ t. a ∷ t) p.split;
      packed = (e, p.packed);
      above = omega (arith, p.above);
      changed = slot_at m _ _ at p.changed;
      free = ((λ f. absurd (omega (arith, e, f, ap (λ t. t.slot) p.changed))), p.free);
    }

next_low : (i : ℕ) (bs : List Assignment) → All (λ b. i < b.slot) bs → All (λ b. suc i ≤ b.slot) bs
next_low i [] all = tt
next_low i (b ∷ bs) all = (omega (arith, all.0), next_low i bs all.1)

pack_from-Packs :
    (i : ℕ) (as' : List Assignment)
    → All (λ a. i ≤ a.slot) as'
    → Pairwise InLowerSlot as'
    → Packs i as' (pack_from i as')
unfolding pack_from
pack_from-Packs i [] low s = tt
pack_from-Packs i (a ∷ as') low s = elim (Bool-cases (a.slot == i)) [
  | inl q ↦
      let e : a.slot ≡ i = ground (arith, q) in
      rw (pack_from, q)
        (first_packed i a as' (pack_from (suc i) as') e (
          pack_from-Packs (suc i) as' (next_low i as' (raise i a.slot as' (omega (arith, e)) s.0))
            s.1))
  | inr q ↦
      let h : i < a.slot = ground (arith, q, low.0) in
      rw (pack_from, q)
        (record {
          before = [];
          after = as';
          split = refl;
          packed = tt;
          above = omega (arith, h);
          changed = slot_at (move_to a i) i (i + 0) (omega arith) refl;
          free = (
            (λ e. absurd (omega (arith, e, h))),
            slot_free i as' (raise i a.slot as' (omega (arith, h)) s.0),
          );
        })
]

-- With a primary first, and the others in ascending slots: if each assignment is in the slot of its
-- place, then nothing is moved. Otherwise the first one that is not is moved down to the slot of its
-- place, which no assignment of the item has; its item and member stay.
pub build_pack_ops-Packs :
    (primary : Assignment) (reorder : List Assignment)
    → primary.slot ≡ 0
    → Pairwise InLowerSlot (primary ∷ reorder)
    → Packs 0 (primary ∷ reorder) (build_pack_ops (primary ∷ reorder))
unfolding build_pack_ops
build_pack_ops-Packs primary reorder e s = first_packed 0 primary reorder (pack_from 1 reorder) e (
    pack_from-Packs 1 reorder (next_low 0 reorder (raise 0 primary.slot reorder (omega arith) s.0))
      s.1)
