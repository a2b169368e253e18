-- ===== src/Allocator/ItemState/Removals.antt =====
-- The removals that v2/pkg/allocator/item_state.go releases keep the replication of the item.
use mathlib.Core.Path.{subst}
use mathlib.Core.List.{Permᴰ, append_assoc}
use mathlib.Core.List.Permᴰ
use gazette.Prelude.{
  ℕ, suc, ◌+◌, ◌-◌, ◌≤◌, ◌<◌, ◌≡◌, ◌⊎◌, refl, sym, ap, ◌∙◌, Bool, true, false, List, [], ◌∷◌, ◌++◌,
  arith, ltb, ◌==◌, Bool-cases, inl, inr,
}
use gazette.Allocator.ItemState.{Assignment, Changes, count_consistent, release, constrain_removals}

module _ (is_consistent : Assignment → Bool) where
  -- The first assignment that is held back is one that may not be released.
  abbrev pub HoldsFor : ℕ → ℕ → List Assignment → Type 0
  HoldsFor n r [] = Unit
  HoldsFor n r (a ∷ held) = (n < r) ⊎ ((is_consistent a ≡ true) × (n ≡ r))

  count-inconsistent :
      (a : Assignment) (as' : List Assignment)
      → is_consistent a ≡ false
      → count_consistent is_consistent (a ∷ as') ≡ count_consistent is_consistent as'
  unfolding count_consistent
  count-inconsistent a as' c = rw (count_consistent, c) refl

  count-consistent :
      (a : Assignment) (as' : List Assignment)
      → is_consistent a ≡ true
      → count_consistent is_consistent (a ∷ as') ≡ suc (count_consistent is_consistent as')
  unfolding count_consistent
  count-consistent a as' c = rw (count_consistent, c) refl

  count-append :
      (xs ys : List Assignment)
      → count_consistent is_consistent (xs ++ ys)
        ≡ count_consistent is_consistent xs + count_consistent is_consistent ys
  unfolding count_consistent
  count-append [] ys = omega arith
  count-append (x ∷ xs) ys = ground (arith, count-append xs ys)

  count-perm :
      {xs ys : List Assignment}
      → Permᴰ xs ys
      → count_consistent is_consistent xs ≡ count_consistent is_consistent ys
  unfolding count_consistent
  count-perm Permᴰ.nil = refl
  count-perm (Permᴰ.cons e p) = ground (arith, ap is_consistent e, count-perm p)
  count-perm (Permᴰ.swap e f) = ground (arith, ap is_consistent e, ap is_consistent f)
  count-perm (Permᴰ.trans p q) = count-perm p ∙ count-perm q

  -- A released part leaves `r` consistent assignments, if there were as many.
  record IsReleased (n r : ℕ) (remove released held : List Assignment) : Type 0 where
    pub parts : released ++ held ≡ remove
    pub leaves : r ≤ n → r + count_consistent is_consistent released ≤ n
    pub short : n < r → released ≡ []
    pub holds : HoldsFor (n - count_consistent is_consistent released) r held

  release-IsReleased :
      (n r : ℕ) (remove : List Assignment)
      → IsReleased n r remove
          (release is_consistent n r remove).0
          (release is_consistent n r remove).1
  unfolding release count_consistent
  release-IsReleased n r [] = record {
    parts = refl;
    leaves = λ h. omega arith;
    short = λ h. refl;
    holds = tt;
  }
  release-IsReleased n r (a ∷ remove) = elim (Bool-cases (ltb n r)) [
    | inl q ↦
        rw (release, q)
          (record {
            parts = refl;
            leaves = λ h. omega arith;
            short = λ h. refl;
            holds = inl (ground (arith, q));
          })
    | inr q ↦ elim (Bool-cases (is_consistent a)) [
      | inr c ↦
          let more = release-IsReleased n r remove in
          rw (release, q, c)
            (record {
              parts = ap (λ t. a ∷ t) more.parts;
              leaves = λ h. omega (arith, more.leaves h, count-inconsistent a _ c);
              short = λ h. absurd (ground (arith, q, h));
              holds =
                  subst (λ k. HoldsFor (n - k) r (release is_consistent n r remove).1)
                    (sym (count-inconsistent a _ c)) more.holds;
            })
      | inl c ↦ elim (Bool-cases (n == r)) [
        | inl e ↦
            rw (release, q, c, e)
              (record {
                parts = refl;
                leaves = λ h. omega arith;
                short = λ h. refl;
                holds = inr (c, ground (arith, e));
              })
        | inr e ↦
            let more = release-IsReleased (n - 1) r remove in
            let more_than : r < n = ground (arith, q, e) in
            rw (release, q, c, e)
              (record {
                parts = ap (λ t. a ∷ t) more.parts;
                leaves = λ h. omega (arith, more.leaves (omega arith), count-consistent a _ c);
                short = λ h. absurd (omega arith);
                holds =
                    subst (λ k. HoldsFor k r (release is_consistent (n - 1) r remove).1)
                      (omega
                        (arith, count-consistent a (release is_consistent (n - 1) r remove).0 c))
                      more.holds;
              })
      ]
    ]
  ]

comm {ℓ} : {A : Type ℓ} (xs ys : List A) → Permᴰ (xs ++ ys) (ys ++ xs)
comm xs [] = Permᴰ.append-nil xs
comm xs (y ∷ ys) = Permᴰ.trans (Permᴰ.middle y xs ys) (Permᴰ.cons refl (comm xs ys))

module _ (is_consistent : Assignment → Bool) where
  -- What is asked of constrained removals: `wanted` are those sought, in the order of release.
  pub record IsConstrained (r : ℕ) (current wanted : List Assignment) (c d : Changes) : Type 0 where
    pub same : Permᴰ (d.remove ++ d.reorder) current
    pub replicated :
        r ≤ count_consistent is_consistent current → r ≤ count_consistent is_consistent d.reorder
    pub short : count_consistent is_consistent current < r → d.remove ≡ []
    pub held : List Assignment
    pub split : d.remove ++ held ≡ wanted
    pub kept : d.reorder ≡ c.reorder ++ held
    pub needed : HoldsFor is_consistent (count_consistent is_consistent d.reorder) r held

  -- If the removals and the kept assignments are the current ones, and the sort only permutes, then
  -- so they are after constrainRemovals. If at least `r` current assignments are consistent, at
  -- least `r` consistent ones are kept; if fewer are, none is removed. The removals are a first
  -- part of those sought, in order of their load ratio, and the first that is held back could not
  -- be removed as well: it is consistent, and exactly `r` consistent ones are kept, or fewer are.
  pub constrain_removals-IsConstrained :
      (by_load_ratio : List Assignment → List Assignment) (r : ℕ) (current : List Assignment)
      (c : Changes)
      → ((xs : List Assignment) → Permᴰ (by_load_ratio xs) xs)
      → Permᴰ (c.remove ++ c.reorder) current
      → IsConstrained r current
          (by_load_ratio c.remove)
          c
          (constrain_removals is_consistent by_load_ratio r current c)
  unfolding constrain_removals
  constrain_removals-IsConstrained by_load_ratio r current c sorts p =
      let n = count_consistent is_consistent current in
      let split = release is_consistent n r (by_load_ratio c.remove) in
      let w = release-IsReleased is_consistent n r (by_load_ratio c.remove) in
      let sorted : Permᴰ (split.0 ++ split.1) c.remove =
        subst (λ l. Permᴰ l c.remove) (sym w.parts) (sorts c.remove) in
      let moved : Permᴰ (split.0 ++ (c.reorder ++ split.1)) ((split.0 ++ split.1) ++ c.reorder) =
        subst (λ l. Permᴰ (split.0 ++ (c.reorder ++ split.1)) l)
          (sym (append_assoc split.0 split.1 c.reorder))
          (Permᴰ.append_left split.0 (comm c.reorder split.1)) in
      let all : Permᴰ (split.0 ++ (c.reorder ++ split.1)) current =
        Permᴰ.trans moved (Permᴰ.trans (Permᴰ.append_right c.reorder sorted) p) in
      let total =
        sym (count-append is_consistent split.0 (c.reorder ++ split.1))
        ∙ count-perm is_consistent all in
      record {
        same = all;
        replicated = λ h. omega (arith, w.leaves h, total);
        short = w.short;
        held = split.1;
        split = w.parts;
        kept = refl;
        needed = subst (λ k. HoldsFor is_consistent k r split.1) (omega (arith, total)) w.holds;
      }
