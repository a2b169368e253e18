-- ===== src/Allocator/ItemState/Walk.antt =====
-- The joint walk of v2/pkg/allocator/item_state.go takes the differences of the two lists.
use mathlib.Core.Path.{subst}
use gazette.Prelude.{
  leb, ℕ, zero, suc, ◌+◌, ◌≤◌, ◌<◌, ◌≡◌, ◌⊎◌, refl, ap, ◌∙◌, Bool, true, false, not, ◌||◌, List, [],
  ◌∷◌, arith, if◌then◌else◌, inl, inr, length, All, filter, Pairwise,
}
use gazette.Allocator.ItemState.{
  Assignment, Comparison, less, same, greater, compare_assignment, Changes, next_slot, add_all,
  walk, init,
}
use gazette.Allocator.ItemState.Comparing.{
  greater_flip, less_flip, same_flip, less_trans, same_left,
}

abbrev pub Before : Assignment → Assignment → Type 0
Before a b = compare_assignment a b ≡ less

-- In the natural order, without repetitions.
abbrev pub IsSorted : List Assignment → Type 0
IsSorted as' = Pairwise Before as'

abbrev pub is_same : Comparison → Bool
is_same same = true
is_same less = false
is_same greater = false

-- The list has an assignment of the same item to the same member.
unfoldable pub has : List Assignment → Assignment → Bool
has [] a = false
has (b ∷ bs) a = is_same (compare_assignment a b) || has bs a

abbrev pub lacks : List Assignment → Assignment → Bool
lacks bs a = not (has bs a)

-- The assignments in the slots from one on.
unfoldable pub in_slots : ℕ → List Assignment → List Assignment
in_slots slot [] = []
in_slots slot (a ∷ as') = record a { slot = slot } ∷ in_slots (suc slot) as'

-- The first slot above those of all assignments.
unfoldable pub first_above : List Assignment → ℕ
first_above [] = 0
first_above (a ∷ as') = if leb (first_above as') a.slot then suc a.slot else first_above as'

add_all-in_slots : (slot : ℕ) (as' : List Assignment) → add_all slot as' ≡ in_slots slot as'
unfolding add_all in_slots
add_all-in_slots slot [] = refl
add_all-in_slots slot (a ∷ as') =
    ap (λ t. record a { slot = slot } ∷ t) (add_all-in_slots (suc slot) as')

-- The changes are the differences and the intersection.
pub record IsDifference (slot : ℕ) (current desired : List Assignment) (c : Changes) : Type 0 where
  pub removed : c.remove ≡ filter (lacks desired) current
  pub reordered : c.reorder ≡ filter (has desired) current
  pub added : c.add ≡ in_slots slot (filter (lacks current) desired)

Comparison-cases : (c : Comparison) → (c ≡ less) ⊎ ((c ≡ same) ⊎ (c ≡ greater))
Comparison-cases less = inl refl
Comparison-cases same = inr (inl refl)
Comparison-cases greater = inr (inr refl)

Before-All :
    (a b : Assignment) (xs : List Assignment) → Before a b → All (Before b) xs → All (Before a) xs
Before-All a b [] h all = tt
Before-All a b (x ∷ xs) h all = (less_trans a b x h all.0, Before-All a b xs h all.1)

same-All :
    (a b : Assignment) (xs : List Assignment)
    → compare_assignment a b ≡ same
    → All (Before b) xs
    → All (Before a) xs
same-All a b [] h all = tt
same-All a b (x ∷ xs) h all = (same_left a b x h ∙ all.0, same-All a b xs h all.1)

has-Before : (a : Assignment) (xs : List Assignment) → All (Before a) xs → has xs a ≡ false
unfolding has
has-Before a [] all = refl
has-Before a (x ∷ xs) all = rw (has, all.0) (has-Before a xs all.1)

has-first :
    (a b : Assignment) (bs : List Assignment)
    → compare_assignment a b ≡ same
    → has (b ∷ bs) a ≡ true
unfolding has
has-first a b bs h = rw (has, h) refl

has-skip : (b x : Assignment) (bs : List Assignment) → Before b x → has (b ∷ bs) x ≡ has bs x
unfolding has
has-skip b x bs h = rw (has, less_flip b x h) refl

module _ (b : Assignment) (bs : List Assignment) where
  filter-has_skip :
      (xs : List Assignment) → All (Before b) xs → filter (has bs) xs ≡ filter (has (b ∷ bs)) xs
  filter-has_skip [] all = refl
  filter-has_skip (x ∷ xs) all =
      rw (has-skip b x bs all.0)
        (ap (λ t. if has bs x then x ∷ t else t) (filter-has_skip xs all.1))

  filter-lacks_skip :
      (xs : List Assignment) → All (Before b) xs → filter (lacks bs) xs ≡ filter (lacks (b ∷ bs)) xs
  filter-lacks_skip [] all = refl
  filter-lacks_skip (x ∷ xs) all =
      rw (has-skip b x bs all.0)
        (ap (λ t. if not (has bs x) then x ∷ t else t) (filter-lacks_skip xs all.1))

filter-lacks_none : (xs : List Assignment) → xs ≡ filter (lacks []) xs
unfolding has
filter-lacks_none [] = refl
filter-lacks_none (x ∷ xs) = ap (λ t. x ∷ t) (filter-lacks_none xs)

filter-has_none : (xs : List Assignment) → [] ≡ filter (has []) xs
unfolding has
filter-has_none [] = refl
filter-has_none (x ∷ xs) = filter-has_none xs

walk-IsDifference :
    (fuel slot : ℕ) (current desired : List Assignment)
    → length current + length desired ≤ fuel
    → IsSorted current
    → IsSorted desired
    → IsDifference slot current desired (walk fuel slot current desired)
unfolding walk in_slots has
walk-IsDifference zero slot [] [] l s t = record { removed = refl; reordered = refl; added = refl }
walk-IsDifference zero slot (a ∷ current) desired l s t = absurd (omega arith)
walk-IsDifference zero slot [] (d ∷ desired) l s t = absurd (omega arith)
walk-IsDifference (suc fuel) slot [] desired l s t = record {
  removed = refl;
  reordered = refl;
  added = add_all-in_slots slot desired ∙ ap (in_slots slot) (filter-lacks_none desired);
}
walk-IsDifference (suc fuel) slot (a ∷ current) [] l s t = record {
  removed = filter-lacks_none (a ∷ current);
  reordered = filter-has_none (a ∷ current);
  added = refl;
}
walk-IsDifference (suc fuel) slot (a ∷ current) (d ∷ desired) l s t =
    elim (Comparison-cases (compare_assignment a d)) [
      | inl e ↦
          let w = walk-IsDifference fuel slot current (d ∷ desired) (omega arith) s.1 t in
          let later : All (Before a) (d ∷ desired) = (e, Before-All a d desired e t.0) in
          let out : has (d ∷ desired) a ≡ false = has-Before a (d ∷ desired) later in
          rw (walk, e)
            (record {
              removed = rw out (ap (λ t. a ∷ t) w.removed);
              reordered = rw out w.reordered;
              added =
                  w.added ∙ ap (in_slots slot) (filter-lacks_skip a current (d ∷ desired) later);
            })
      | inr (inl e) ↦
          let w = walk-IsDifference fuel slot current desired (omega arith) s.1 t.1 in
          let e' = same_flip a d e in
          let in_desired : has (d ∷ desired) a ≡ true = has-first a d desired e in
          let in_current : has (a ∷ current) d ≡ true = has-first d a current e' in
          let later = same-All d a current e' s.0 in
          let after = same-All a d desired e t.0 in
          rw (walk, e)
            (record {
              removed = rw in_desired (w.removed ∙ filter-lacks_skip d desired current later);
              reordered =
                  rw in_desired
                    (ap (λ t. a ∷ t) (w.reordered ∙ filter-has_skip d desired current later));
              added =
                  rw in_current
                    (w.added ∙ ap (in_slots slot) (filter-lacks_skip a current desired after));
            })
      | inr (inr e) ↦
          let w = walk-IsDifference fuel (suc slot) (a ∷ current) desired (omega arith) s t.1 in
          let e' = greater_flip a d e in
          let later : All (Before d) (a ∷ current) = (e', Before-All d a current e' s.0) in
          let out : has (a ∷ current) d ≡ false = has-Before d (a ∷ current) later in
          rw (walk, e)
            (record {
              removed = w.removed ∙ filter-lacks_skip d desired (a ∷ current) later;
              reordered = w.reordered ∙ filter-has_skip d desired (a ∷ current) later;
              added = rw out (ap (λ t. record d { slot = slot } ∷ t) w.added);
            })
    ]

first_above-next :
    (slot : ℕ) (current : List Assignment)
    → next_slot slot current
      ≡ (if leb slot (first_above current) then first_above current else slot)
unfolding next_slot first_above
first_above-next slot [] = ground arith
first_above-next slot (a ∷ current) =
    ground (arith, first_above-next (a.slot + 1) current, first_above-next slot current)

first_above-bound :
    (n : ℕ) (as' : List Assignment) → first_above as' ≤ n → All (λ a. a.slot < n) as'
unfolding first_above
first_above-bound n [] h = tt
first_above-bound n (a ∷ as') h = (ground (arith, h), first_above-bound n as' (ground (arith, h)))

-- On current and desired assignments that ascend without repetitions, the joint walk removes
-- exactly the current ones that are not desired, keeps for reordering exactly those that are, and
-- adds exactly the desired ones that are not current, each in its order; those added get
-- consecutive slots from the first one that is greater than the slot of every current assignment,
-- which is 0 if there is none.
pub init-IsDifference :
    (current desired : List Assignment)
    → IsSorted current
    → IsSorted desired
    → IsDifference (first_above current) current desired (init current desired)
      × All (λ a. a.slot < first_above current) current
unfolding init
init-IsDifference current desired s t = (
  subst (λ n. IsDifference n current desired (init current desired))
      (first_above-next 0 current ∙ ground arith)
      (walk-IsDifference (length current + length desired) (next_slot 0 current) current desired
        (omega arith) s t),
  first_above-bound (first_above current) current (omega arith),
)
