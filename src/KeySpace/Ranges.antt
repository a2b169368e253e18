-- ===== src/KeySpace/Ranges.antt =====
-- Lookups in the sorted keys, and their extension (Search, Range and appendKeyValue of
-- v2/pkg/keyspace/key_values.go).
use mathlib.Core.Path.{subst}
use gazette.Prelude.{
  ℕ, zero, suc, ◌≡◌, ◌⊎◌, inl, inr, refl, sym, ap, ◌∙◌, Bool, true, not, Option, none, some, List,
  [], ◌∷◌, ◌++◌, arith, if◌then◌else◌, Bytes, bytes_lt, bytes_eq_iff, bytes_lt_irrefl,
  bytes_lt_trans, Bool-cases, Option-cases, All, take, drop, filter, get_elem?, last, ◌&&◌,
  Pairwise-append,
}
use gazette.Go.Search.{prefix_length, search_index-prefix_length}
use gazette.KeySpace.{
  Raw, KeyValue, Update, updated, panics, undecodable, key_from, found_at, search_key, key_range,
  key_value, append_decoded, append_key_value,
}
use gazette.KeySpace.Tail.{value_at, KeyLess, IsSorted, Below}
use gazette.KeySpace.Around.{Above, key_from-IsMonotone, above-from, after-Above}

module _ {D : Type 0} where
  search_key-prefix_length :
      (xs : List (KeyValue D)) (k : Bytes)
      → IsSorted xs
      → search_key xs k
        ≡ (prefix_length (key_from k) xs, found_at xs (prefix_length (key_from k) xs) k)
  unfolding search_key
  search_key-prefix_length xs k s =
      rw (search_index-prefix_length (key_from k) xs (key_from-IsMonotone k xs s)) refl

  Above-value_at : (k : Bytes) (xs : List (KeyValue D)) → Above k xs → value_at k xs ≡ none
  Above-value_at k [] a = refl
  Above-value_at k (x ∷ xs) a =
      ground (arith, a.0, bytes_eq_iff x.raw.key k, bytes_lt_irrefl k, Above-value_at k xs a.1)

  found_value :
      (xs : List (KeyValue D)) (k : Bytes)
      → IsSorted xs
      → (if found_at xs (prefix_length (key_from k) xs) k
          then get_elem? xs (prefix_length (key_from k) xs)
          else none)
        ≡ value_at k xs
  found_value [] k s = refl
  found_value (x ∷ xs) k s = elim (Bool-cases (key_from k x)) [
    | inl q ↦
        rw (q, Above-value_at k xs (after-Above k x xs q s.0))
          (ground (arith, bytes_eq_iff x.raw.key k, bytes_eq_iff k x.raw.key))
    | inr q ↦
        rw q (found_value xs k s.1 ∙ ground (arith, bytes_eq_iff x.raw.key k, bytes_lt_irrefl k))
  ]

  -- What Search finds, read at its index.
  abbrev pub searched : List (KeyValue D) → ℕ × Bool → Option (KeyValue D)
  searched xs (ind, found) = if found then get_elem? xs ind else none

  -- If keys ascend, then Search finds a key exactly if it has a value, and the index it returns is
  -- that value's.
  pub search_key-value_at :
      (xs : List (KeyValue D)) (k : Bytes)
      → IsSorted xs
      → searched xs (search_key xs k) ≡ value_at k xs
  search_key-value_at xs k s =
      ap (searched xs) (search_key-prefix_length xs k s) ∙ found_value xs k s

  Above-filter : (k : Bytes) (xs : List (KeyValue D)) → Above k xs → filter (key_from k) xs ≡ xs
  Above-filter k [] a = refl
  Above-filter k (x ∷ xs) a = rw (above-from k x a.0) (ap (λ t. x ∷ t) (Above-filter k xs a.1))

  drop-prefix :
      (k : Bytes) (xs : List (KeyValue D))
      → IsSorted xs
      → drop (prefix_length (key_from k) xs) xs ≡ filter (key_from k) xs
  drop-prefix k [] s = refl
  drop-prefix k (x ∷ xs) s = elim (Bool-cases (key_from k x)) [
    | inl q ↦ rw q (ap (λ t. x ∷ t) (sym (Above-filter k xs (after-Above k x xs q s.0))))
    | inr q ↦ rw q (drop-prefix k xs s.1)
  ]

  Above-filter_not :
      (k : Bytes) (xs : List (KeyValue D)) → Above k xs → filter (λ x. bytes_lt x.raw.key k) xs ≡ []
  Above-filter_not k [] a = refl
  Above-filter_not k (x ∷ xs) a = ground (arith, above-from k x a.0, Above-filter_not k xs a.1)

  take-prefix :
      (k : Bytes) (xs : List (KeyValue D))
      → IsSorted xs
      → take (prefix_length (key_from k) xs) xs ≡ filter (λ x. bytes_lt x.raw.key k) xs
  take-prefix k [] s = refl
  take-prefix k (x ∷ xs) s = elim (Bool-cases (bytes_lt x.raw.key k)) [
    | inl q ↦ rw q (ap (λ t. x ∷ t) (take-prefix k xs s.1))
    | inr q ↦ rw q (sym (Above-filter_not k xs (after-Above k x xs (ground (arith, q)) s.0)))
  ]

  Pairwise-drop : (n : ℕ) (xs : List (KeyValue D)) → IsSorted xs → IsSorted (drop n xs)
  Pairwise-drop zero xs s = s
  Pairwise-drop (suc n) [] s = tt
  Pairwise-drop (suc n) (x ∷ xs) s = Pairwise-drop n xs s.1

  filter-filter :
      (p q : KeyValue D → Bool) (xs : List (KeyValue D))
      → filter p (filter q xs) ≡ filter (λ x. q x && p x) xs
  filter-filter p q [] = refl
  filter-filter p q (x ∷ xs) = elim (Bool-cases (q x)) [
    | inl h ↦ elim (Bool-cases (p x)) [
      | inl g ↦ rw (h, g) (ap (λ t. x ∷ t) (filter-filter p q xs))
      | inr g ↦ rw (h, g) (filter-filter p q xs)
    ]
    | inr h ↦ rw h (filter-filter p q xs)
  ]

  -- If keys ascend, then Range returns exactly the elements with keys from `from` on and before
  -- `to`, in order.
  pub key_range-filter :
      (xs : List (KeyValue D)) (from to : Bytes)
      → IsSorted xs
      → key_range xs from to
        ≡ filter (λ x. not (bytes_lt x.raw.key from) && bytes_lt x.raw.key to) xs
  unfolding key_range
  key_range-filter xs from to s =
      let n = prefix_length (key_from from) xs in
      let t = Pairwise-drop n xs s in
      ap (λ r. take (search_key (drop r.0 xs) to).0 (drop r.0 xs))
        (search_key-prefix_length xs from s)
      ∙ ap (λ r. take r.0 (drop n xs)) (search_key-prefix_length (drop n xs) to t)
      ∙ take-prefix to (drop n xs) t
      ∙ ap (filter (λ x. bytes_lt x.raw.key to)) (drop-prefix from xs s)
      ∙ filter-filter (λ x. bytes_lt x.raw.key to) (key_from from) xs

module _ {D : Type 0} (decode : Raw → Option D) where
  -- A key that comes after all is appended, in order, if it decodes; other keys are refused.
  abbrev pub Appends : List (KeyValue D) → Raw → Update (List (KeyValue D)) → Type 0
  Appends kv cur (updated kv' err) =
      IsSorted kv'
      × Below cur.key kv
      × (((d : D) × (decode cur ≡ some d)
            × (kv' ≡ kv ++ key_value decode cur d ∷ [])
            × (err ≡ none))
          ⊎ ((decode cur ≡ none) × (kv' ≡ kv) × (err ≡ some undecodable)))
  Appends kv cur panics = ¬ (Below cur.key kv)

  last-Below :
      (k : Bytes) (x : KeyValue D) (xs : List (KeyValue D))
      → IsSorted (x ∷ xs)
      → bytes_lt (last x xs).raw.key k ≡ true
      → Below k (x ∷ xs)
  last-Below k x [] s h = (h, tt)
  last-Below k x (y ∷ ys) s h =
      let b = last-Below k y ys s.1 h in (bytes_lt_trans x.raw.key y.raw.key k s.0.0 b.0, b)

  Below-last :
      (k : Bytes) (x : KeyValue D) (xs : List (KeyValue D))
      → Below k (x ∷ xs)
      → bytes_lt (last x xs).raw.key k ≡ true
  Below-last k x [] b = b.0
  Below-last k x (y ∷ ys) b = Below-last k y ys b.1

  Below-append :
      (kv : List (KeyValue D)) (cur : Raw) (d : D)
      → Below cur.key kv
      → IsSorted kv
      → IsSorted (kv ++ key_value decode cur d ∷ [])
  Below-append kv cur d b s =
      Pairwise-append KeyLess kv (key_value decode cur d ∷ []) s (tt, tt) (each kv b)
    where
      each :
          (xs : List (KeyValue D))
          → Below cur.key xs
          → All (λ x. All (KeyLess x) (key_value decode cur d ∷ [])) xs
      each [] b = tt
      each (x ∷ xs) b = ((b.0, tt), each xs b.1)

  append_decoded-none :
      (kv : List (KeyValue D)) (cur : Raw)
      → decode cur ≡ none
      → append_decoded decode kv cur ≡ updated kv (some undecodable)
  append_decoded-none kv cur h = rw (append_decoded, h) refl

  append_decoded-some :
      (kv : List (KeyValue D)) (cur : Raw) (d : D)
      → decode cur ≡ some d
      → append_decoded decode kv cur ≡ updated (kv ++ key_value decode cur d ∷ []) none
  append_decoded-some kv cur d h = rw (append_decoded, h) refl

  decoded-Appends :
      (kv : List (KeyValue D)) (cur : Raw)
      → Below cur.key kv
      → IsSorted kv
      → Appends kv cur (append_decoded decode kv cur)
  decoded-Appends kv cur b s = elim (Option-cases (decode cur)) [
    | inl h ↦
        subst (Appends kv cur) (sym (append_decoded-none kv cur h)) (s, b, inr (h, refl, refl))
    | inr (d, h) ↦
        subst (Appends kv cur) (sym (append_decoded-some kv cur d h))
          (Below-append kv cur d b s, b, inl (d, h, refl, refl))
  ]

  -- If keys ascend, then appendKeyValue panics only if the key does not come after all others;
  -- otherwise keys ascend in its result, which has the decoded element at the end, without an
  -- error, or is the list itself with a decoding error.
  pub append_key_value-Appends :
      (kv : List (KeyValue D)) (cur : Raw)
      → IsSorted kv
      → Appends kv cur (append_key_value decode kv cur)
  unfolding append_key_value
  append_key_value-Appends [] cur s = decoded-Appends [] cur tt tt
  append_key_value-Appends (x ∷ xs) cur s =
      elim (Bool-cases (bytes_lt (last x xs).raw.key cur.key)) [
        | inl h ↦ rw h (decoded-Appends (x ∷ xs) cur (last-Below cur.key x xs s h) s)
        | inr h ↦ rw h (λ b. absurd (ground (arith, h, Below-last cur.key x xs b)))
      ]
