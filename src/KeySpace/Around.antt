-- ===== src/KeySpace/Around.antt =====
-- Sorted keys (v2/pkg/keyspace/key_values.go) around a key: those before it, its own and those past it.
use gazette.Prelude.{
  ℕ, zero, suc, ◌<◌, ◌≡◌, inl, inr, refl, sym, ap, true, false, Option, none, some, List, [], ◌∷◌,
  ◌++◌, arith, if◌then◌else◌, Bytes, bytes_eq, bytes_lt, bytes_eq_iff, bytes_lt_irrefl,
  bytes_lt_trans, bytes_lt_total, Bool-cases, All, length, take, drop, test_at, Pairwise-append,
  Crosses, All-append,
}
use gazette.Go.Search.{prefix_length, IsMonotone}
use gazette.KeySpace.{KeyValue, key_from, found_at}
use gazette.KeySpace.Tail.{
  value_at, KeyLess, IsSorted, Below, or_else, to_list, value_at-append, value_at-Below,
}

module _ {D : Type 0} where
  abbrev pub AtMost : Bytes → List (KeyValue D) → Type 0
  AtMost k xs = All (λ x. bytes_lt k x.raw.key ≡ false) xs

  abbrev pub Above : Bytes → List (KeyValue D) → Type 0
  Above k xs = All (λ x. bytes_lt k x.raw.key ≡ true) xs

  abbrev pub HasKey : Bytes → Option (KeyValue D) → Type 0
  HasKey k none = Unit
  HasKey k (some x) = x.raw.key ≡ k

  pub HasKey-if_some :
      (k : Bytes) (o : Option (KeyValue D))
      → ((x : KeyValue D) → o ≡ some x → x.raw.key ≡ k)
      → HasKey k o
  HasKey-if_some k none f = tt
  HasKey-if_some k (some x) f = f x refl

  pub from-after :
      (k : Bytes) (x y : KeyValue D)
      → KeyLess x y
      → key_from k x ≡ true
      → bytes_lt k y.raw.key ≡ true
  from-after k x y l h =
      ground (arith, bytes_lt_trans k x.raw.key y.raw.key, bytes_lt_total k x.raw.key)

  pub after-Above :
      (k : Bytes) (x : KeyValue D) (xs : List (KeyValue D))
      → key_from k x ≡ true
      → All (KeyLess x) xs
      → Above k xs
  after-Above k x [] h a = tt
  after-Above k x (y ∷ ys) h a = (from-after k x y a.0 h, after-Above k x ys h a.1)

  pub above-from : (k : Bytes) (y : KeyValue D) → bytes_lt k y.raw.key ≡ true → key_from k y ≡ true
  above-from k y h = ground (arith, bytes_lt_irrefl k, bytes_lt_trans k y.raw.key k)

  pub Above-test_at :
      (k : Bytes) (xs : List (KeyValue D))
      → Above k xs
      → (m : ℕ) → m < length xs
      → test_at (key_from k) xs m ≡ true
  Above-test_at k [] a m l = absurd (omega arith)
  Above-test_at k (x ∷ xs) a zero l = above-from k x a.0
  Above-test_at k (x ∷ xs) a (suc m) l = Above-test_at k xs a.1 m (omega arith)

  pub key_from-IsMonotone :
      (k : Bytes) (xs : List (KeyValue D)) → IsSorted xs → IsMonotone (key_from k) xs
  key_from-IsMonotone k [] s = tt
  key_from-IsMonotone k (x ∷ xs) s =
      (λ q m l. Above-test_at k xs (after-Above k x xs q s.0) m l, key_from-IsMonotone k xs s.1)

  pub before-from :
      (k : Bytes) (x : KeyValue D) → key_from k x ≡ false → bytes_lt k x.raw.key ≡ false
  before-from k x h = ground (arith, bytes_lt_irrefl k, bytes_lt_trans k x.raw.key k)

  abbrev pub through : Bytes → List (KeyValue D) → ℕ
  through k xs =
      if found_at xs (prefix_length (key_from k) xs) k
      then suc (prefix_length (key_from k) xs)
      else prefix_length (key_from k) xs

  -- The keys passed on are at most the event's, and the others are past it.
  pub through-splits :
      (k : Bytes) (xs : List (KeyValue D))
      → IsSorted xs
      → AtMost k (take (through k xs) xs) × Above k (drop (through k xs) xs)
  through-splits k [] s = (tt, tt)
  through-splits k (x ∷ xs) s = elim (Bool-cases (key_from k x)) [
    | inl q ↦ elim (Bool-cases (bytes_eq k x.raw.key)) [
      | inl e ↦
          rw (q, e)
            (
              (ground (arith, bytes_eq_iff k x.raw.key, bytes_lt_irrefl k), tt),
              after-Above k x xs q s.0,
            )
      | inr e ↦
          rw (q, e)
            (
              tt,
              (
                ground (arith, bytes_eq_iff k x.raw.key, bytes_lt_total k x.raw.key),
                after-Above k x xs q s.0,
              ),
            )
    ]
    | inr q ↦ elim (Bool-cases (found_at xs (prefix_length (key_from k) xs) k)) [
      | inl f ↦
          let r = through-splits k xs s.1 in
          let t = (rw f at r) in rw (q, f) ((before-from k x q, t.0), t.1)
      | inr f ↦
          let r = through-splits k xs s.1 in
          let t = (rw f at r) in rw (q, f) ((before-from k x q, t.0), t.1)
    ]
  ]

  -- A list in order with keys at most `k` is what comes before `k`, then its value.
  pub AtMost-split :
      (k : Bytes) (xs : List (KeyValue D))
      → IsSorted xs
      → AtMost k xs
      → (front : List (KeyValue D)) × (o : Option (KeyValue D)) × (xs ≡ front ++ to_list o)
        × Below k front
        × HasKey k o
  AtMost-split k [] s a = ([], none, refl, tt, tt)
  AtMost-split k (x ∷ xs) s a = elim (Bool-cases (bytes_lt x.raw.key k)) [
    | inl q ↦
        let (front, o, e, b, h) = AtMost-split k xs s.1 a.1 in
        (x ∷ front, o, ap (λ t. x ∷ t) e, (q, b), h)
    | inr q ↦ (
      [],
      some x,
      ap (λ t. x ∷ t) (ends xs s.0 a.1 (bytes_lt_total x.raw.key k q a.0)),
      tt,
      bytes_lt_total x.raw.key k q a.0,
    )
  ]
    where
      ends : (ys : List (KeyValue D)) → All (KeyLess x) ys → AtMost k ys → x.raw.key ≡ k → ys ≡ []
      ends [] p b e = refl
      ends (y ∷ ys) p b e = absurd (ground (arith, p.0, b.0, e))

  pub value_at-Above : (k : Bytes) (xs : List (KeyValue D)) → Above k xs → value_at k xs ≡ none
  value_at-Above k [] b = refl
  value_at-Above k (x ∷ xs) b =
      ground (arith, b.0, bytes_eq_iff x.raw.key k, bytes_lt_irrefl k, value_at-Above k xs b.1)

  pub or_else-none : (o : Option (KeyValue D)) → or_else o none ≡ o
  or_else-none none = refl
  or_else-none (some x) = refl

  pub value_at-to_list :
      (k j : Bytes) (o : Option (KeyValue D))
      → HasKey k o
      → value_at j (to_list o) ≡ (if bytes_eq k j then o else none)
  value_at-to_list k j none h = ground arith
  value_at-to_list k j (some x) h = ground (arith, bytes_eq_iff x.raw.key j, bytes_eq_iff k j)

  -- A list in order around a key, and its value there and elsewhere.
  pub value_at-around :
      (k j : Bytes) (front : List (KeyValue D)) (o : Option (KeyValue D)) (rest : List (KeyValue D))
      → HasKey k o
      → Below k front
      → Above k rest
      → value_at j (front ++ to_list o ++ rest)
        ≡ (if bytes_eq k j then o else or_else (value_at j front) (value_at j rest))
  value_at-around k j front o rest h b a = elim (Bool-cases (bytes_eq k j)) [
    | inl e ↦
        let q = (bytes_eq_iff k j).0 e in
        let b' = (rw q at b) in
        let a' = (rw q at a) in
        rw
          (
            value_at-append j (front ++ to_list o) rest,
            value_at-append j front (to_list o),
            value_at-to_list k j o h,
            e,
            value_at-Below j front b',
            value_at-Above j rest a',
          )
          (or_else-none o)
    | inr e ↦
        rw
          (
            value_at-append j (front ++ to_list o) rest,
            value_at-append j front (to_list o),
            value_at-to_list k j o h,
            e,
          )
          (ap (λ t. or_else t (value_at j rest)) (or_else-none (value_at j front)))
  ]

  pub Below-Above :
      (k : Bytes) (xs ys : List (KeyValue D)) → Below k xs → Above k ys → Crosses KeyLess xs ys
  Below-Above k [] ys b a = tt
  Below-Above k (x ∷ xs) ys b a = (one ys a, Below-Above k xs ys b.1 a)
    where
      one : (ys : List (KeyValue D)) → Above k ys → All (KeyLess x) ys
      one [] a = tt
      one (y ∷ ys) a = (bytes_lt_trans x.raw.key k y.raw.key b.0 a.0, one ys a.1)

  pub Below-to_list :
      (k : Bytes) (xs : List (KeyValue D)) (o : Option (KeyValue D))
      → HasKey k o
      → Below k xs
      → Crosses KeyLess xs (to_list o)
  Below-to_list k [] o h b = tt
  Below-to_list k (x ∷ xs) none h b = (tt, Below-to_list k xs none h b.1)
  Below-to_list k (x ∷ xs) (some y) h b = ((rw h b.0, tt), Below-to_list k xs (some y) h b.1)

  pub to_list-Above :
      (k : Bytes) (o : Option (KeyValue D)) (ys : List (KeyValue D))
      → HasKey k o
      → Above k ys
      → Crosses KeyLess (to_list o) ys
  to_list-Above k none ys h a = tt
  to_list-Above k (some x) ys h a = (rw (sym h) at a, tt)

  pub to_list-IsSorted : (o : Option (KeyValue D)) → IsSorted (to_list o)
  to_list-IsSorted none = tt
  to_list-IsSorted (some x) = (tt, tt)

  pub around-IsSorted :
      (k : Bytes) (front : List (KeyValue D)) (o : Option (KeyValue D)) (rest : List (KeyValue D))
      → HasKey k o
      → Below k front
      → Above k rest
      → IsSorted front
      → IsSorted rest
      → IsSorted (front ++ to_list o ++ rest)
  around-IsSorted k front o rest h b a f r =
      Pairwise-append KeyLess (front ++ to_list o) rest
        (Pairwise-append KeyLess front (to_list o) f (to_list-IsSorted o)
          (Below-to_list k front o h b))
        r
        (All-append (λ x. All (KeyLess x) rest) front (to_list o) (Below-Above k front rest b a)
          (to_list-Above k o rest h a))

  pub AtMost-around :
      (k : Bytes) (front : List (KeyValue D)) (o : Option (KeyValue D))
      → HasKey k o
      → Below k front
      → AtMost k (front ++ to_list o)
  AtMost-around k [] none h b = tt
  AtMost-around k [] (some x) h b = (ground (arith, bytes_lt_irrefl k, h), tt)
  AtMost-around k (x ∷ xs) o h b = (
    ground (arith, b.0, bytes_lt_irrefl k, bytes_lt_trans k x.raw.key k),
    AtMost-around k xs o h b.1,
  )
