-- ===== src/Allocator/ItemState/Primary.antt =====
-- The assignment that v2/pkg/allocator/item_state.go promotes to primary.
use mathlib.Core.Path.{subst}
use mathlib.Core.List.{Permᴰ, append_assoc, append-nil}
use mathlib.Core.List.Permᴰ
use gazette.Prelude.{
  ◌≡◌, refl, sym, ap, Bool, true, false, List, [], ◌∷◌, ◌++◌, arith, ◌==◌, Bool-cases, inl, inr,
  All, All-append,
}
use gazette.Allocator.ItemState.{Assignment, better, select, with_primary, constrain_reorders}

module _ (is_consistent : Assignment → Bool) (lower : Assignment → Assignment → Bool) where
  abbrev NotBetter : Assignment → Assignment → Type 0
  NotBetter primary a = better is_consistent lower a primary ≡ false

  -- The assignment put first is consistent if the other is, and the other's load ratio is not lower if
  -- both are or both are not.
  abbrev pub Outranks : Assignment → Assignment → Type 0
  Outranks primary a =
      (is_consistent a ≡ true → is_consistent primary ≡ true)
      × (is_consistent a ≡ is_consistent primary → lower a primary ≡ false)

  NotBetter-Outranks : (primary a : Assignment) → NotBetter primary a → Outranks primary a
  NotBetter-Outranks primary a h = (ground (arith, h), ground (arith, h))

  All-Outranks :
      (primary : Assignment) (as' : List Assignment)
      → All (NotBetter primary) as'
      → All (Outranks primary) as'
  All-Outranks primary [] all = tt
  All-Outranks primary (a ∷ as') all =
      (NotBetter-Outranks primary a all.0, All-Outranks primary as' all.1)

  -- The order that is chosen for sorted assignments: a current primary stays first, and otherwise one
  -- is put first that outranks all.
  abbrev pub IsOrder : List Assignment → List Assignment → Type 0
  IsOrder [] chosen = chosen ≡ []
  IsOrder (a ∷ as') chosen =
      (a.slot ≡ 0 → chosen ≡ a ∷ as')
      × ((a.slot == 0) ≡ false
          → (primary : Assignment) × (rest : List Assignment) × (chosen ≡ primary ∷ rest)
            × All (Outranks primary) (a ∷ as'))

module _ (is_consistent : Assignment → Bool) (lower : Assignment → Assignment → Bool)
    (irreflexive : (a : Assignment) → lower a a ≡ false)
    (transitive : (a b c : Assignment)
      → lower a b ≡ true
      → lower b c ≡ true
      → lower a c ≡ true) where
  -- What is not better than an assignment is not better than a better one.
  NotBetter-next :
      (a primary y : Assignment)
      → better is_consistent lower a primary ≡ true
      → NotBetter is_consistent lower primary y
      → NotBetter is_consistent lower a y
  NotBetter-next a primary y h k = ground (arith, h, k, transitive y a primary)

  NotBetter-self : (primary : Assignment) → NotBetter is_consistent lower primary primary
  NotBetter-self primary = ground (arith, irreflexive primary)

  NotBetter-All :
      (a primary : Assignment) (ys : List Assignment)
      → better is_consistent lower a primary ≡ true
      → All (NotBetter is_consistent lower primary) ys
      → All (NotBetter is_consistent lower a) ys
  NotBetter-All a primary [] h all = tt
  NotBetter-All a primary (y ∷ ys) h all =
      (NotBetter-next a primary y h all.0, NotBetter-All a primary ys h all.1)

  -- The choice of a scan over `seen`, all of it, and none better.
  record IsBest (seen : List Assignment) (r : Assignment × List Assignment × List Assignment)
      : Type 0 where
    pub all : r.1 ++ r.0 ∷ r.2 ≡ seen
    pub best : All (NotBetter is_consistent lower r.0) seen

  select-IsBest :
      (before : List Assignment) (primary : Assignment) (after rest : List Assignment)
      → All (NotBetter is_consistent lower primary) (before ++ primary ∷ after)
      → IsBest
          (before ++ primary ∷ (after ++ rest))
          (select is_consistent lower before primary after rest)
  unfolding select
  select-IsBest before primary after [] all =
      let e : before ++ primary ∷ after ≡ before ++ primary ∷ (after ++ []) =
        ap (λ t. before ++ primary ∷ t) (sym (append-nil after)) in
      record { all = e; best = subst (λ l. All (NotBetter is_consistent lower primary) l) e all }
  select-IsBest before primary after (a ∷ rest) all =
      elim (Bool-cases (better is_consistent lower a primary)) [
        | inl q ↦
            let seen = before ++ primary ∷ after in
            let e : seen ++ a ∷ rest ≡ before ++ primary ∷ (after ++ a ∷ rest) =
              append_assoc before (primary ∷ after) (a ∷ rest) in
            let w = select-IsBest seen a [] rest (
              All-append (NotBetter is_consistent lower a) seen (a ∷ [])
                (NotBetter-All a primary seen q all) (NotBetter-self a, tt)) in
            rw (select, q) (subst (λ l. IsBest l (select is_consistent lower seen a [] rest)) e w)
        | inr q ↦
            let e : before ++ primary ∷ ((after ++ a ∷ []) ++ rest)
                ≡ before ++ primary ∷ (after ++ a ∷ rest) =
              ap (λ t. before ++ primary ∷ t) (append_assoc after (a ∷ []) rest) in
            let more : All (NotBetter is_consistent lower primary)
                (before ++ primary ∷ (after ++ a ∷ [])) =
              subst (λ l. All (NotBetter is_consistent lower primary) l)
                (append_assoc before (primary ∷ after) (a ∷ []))
                (All-append (NotBetter is_consistent lower primary) (before ++ primary ∷ after)
                  (a ∷ []) all (q, tt)) in
            rw (select, q)
              (subst
                (λ l. IsBest l (select is_consistent lower before primary (after ++ a ∷ []) rest)) e
                (select-IsBest before primary (after ++ a ∷ []) rest more))
      ]

  with_primary-IsOrder :
      (sorted : List Assignment)
      → IsOrder is_consistent lower sorted (with_primary is_consistent lower sorted)
        × Permᴰ (with_primary is_consistent lower sorted) sorted
  with_primary-IsOrder [] = (refl, Permᴰ.nil)
  with_primary-IsOrder (a ∷ as') = elim (Bool-cases (a.slot == 0)) [
    | inl q ↦ rw q (((λ h. refl), λ h. cc), Permᴰ.refl (a ∷ as'))
    | inr q ↦
        let r = select is_consistent lower [] a [] as' in
        let w = select-IsBest [] a [] as' (NotBetter-self a, tt) in
        rw q (
          (
            λ h. absurd (ground (arith, q, h)),
            λ h. (r.0, r.1 ++ r.2, refl, All-Outranks is_consistent lower r.0 (a ∷ as') w.best),
          ),
          subst (λ l. Permᴰ (r.0 ∷ r.1 ++ r.2) l) w.all (Permᴰ.symm (Permᴰ.middle r.0 r.1 r.2)),
        )
  ]

  -- If the sort only permutes and no load ratio is below itself or below one that is below it, then
  -- constrainReorders permutes the assignments. A first one by slot that is primary stays first, in
  -- the order of slots; otherwise the one put first is consistent if any is, and none of the same
  -- consistency has a lower load ratio.
  pub constrain_reorders-IsOrder :
      (by_slot : List Assignment → List Assignment) (reorder : List Assignment)
      → ((xs : List Assignment) → Permᴰ (by_slot xs) xs)
      → IsOrder is_consistent lower
          (by_slot reorder)
          (constrain_reorders is_consistent lower by_slot reorder)
        × Permᴰ (constrain_reorders is_consistent lower by_slot reorder) reorder
  unfolding constrain_reorders
  constrain_reorders-IsOrder by_slot reorder sorts =
      let w = with_primary-IsOrder (by_slot reorder) in (w.0, Permᴰ.trans w.1 (sorts reorder))
