-- ===== src/KeySpace/Tail.antt =====
-- What updateKeyValuesTail (v2/pkg/keyspace/key_values.go) does to the value of each key.
use mathlib.Core.List.{append-nil}
use gazette.Prelude.{
  ◌≡◌, ◌⊎◌, inl, inr, refl, sym, ap, ◌≢◌, true, false, Option, none, some, List, [], ◌∷◌, ◌++◌,
  arith, leb, if◌then◌else◌, Bytes, bytes_eq, bytes_lt, bytes_eq_iff, bytes_lt_irrefl,
  bytes_lt_trans, Bool-cases, Option-cases, All, last, init, Pairwise,
}
use gazette.KeySpace.{
  Raw, KeyValue, EventType, put, delete, unknown, Event, UpdateError, updated, undecodable,
  unknown_deletion, old_revision, key_value, created_error, modified_error, update_new, update_last,
  update_against, update_tail,
}

module _ {D : Type 0} where
  -- The value of a key.
  abbrev pub value_at : Bytes → List (KeyValue D) → Option (KeyValue D)
  value_at k [] = none
  value_at k (x ∷ xs) = let rest = value_at k xs in if bytes_eq x.raw.key k then some x else rest

  -- Keys ascend.
  abbrev pub KeyLess : KeyValue D → KeyValue D → Type 0
  KeyLess x y = bytes_lt x.raw.key y.raw.key ≡ true

  abbrev pub IsSorted : List (KeyValue D) → Type 0
  IsSorted kv = Pairwise KeyLess kv

  abbrev pub Below : Bytes → List (KeyValue D) → Type 0
  Below k xs = All (λ x. bytes_lt x.raw.key k ≡ true) xs

  abbrev pub or_else : Option (KeyValue D) → Option (KeyValue D) → Option (KeyValue D)
  or_else none b = b
  or_else (some a) b = some a

  abbrev pub to_list : Option (KeyValue D) → List (KeyValue D)
  to_list none = []
  to_list (some x) = x ∷ []

  pub value_at-append :
      (k : Bytes) (xs ys : List (KeyValue D))
      → value_at k (xs ++ ys) ≡ or_else (value_at k xs) (value_at k ys)
  value_at-append k [] ys = refl
  value_at-append k (x ∷ xs) ys = ground (arith, value_at-append k xs ys)

  pub value_at-Below : (k : Bytes) (xs : List (KeyValue D)) → Below k xs → value_at k xs ≡ none
  value_at-Below k [] b = refl
  value_at-Below k (x ∷ xs) b =
      ground (arith, b.0, bytes_eq_iff x.raw.key k, bytes_lt_irrefl k, value_at-Below k xs b.1)

module _ {D : Type 0} (decode : Raw → Option D) where
  -- The value of a key after an event on it, by the value before.
  abbrev pub patch : Event → Option (KeyValue D) → Option (KeyValue D)
  patch e none = elim e.type [
    | put ↦ elim (decode e.kv) [ none ↦ none | some d ↦ some (key_value decode e.kv d) ]
    | delete ↦ none
    | unknown ↦ none
  ]
  patch e (some t) = if leb e.kv.mod_revision t.raw.mod_revision then some t else elim e.type [
    | put ↦ elim (decode e.kv) [ none ↦ some t | some d ↦ some (key_value decode e.kv d) ]
    | delete ↦ none
    | unknown ↦ some t
  ]

  last-append :
      (x : KeyValue D) (xs : List (KeyValue D)) (t : KeyValue D) → last x (xs ++ t ∷ []) ≡ t
  last-append x [] t = refl
  last-append x (y ∷ ys) t = last-append y ys t

  init-append :
      (x : KeyValue D) (xs : List (KeyValue D)) (t : KeyValue D) → init x (xs ++ t ∷ []) ≡ x ∷ xs
  init-append x [] t = refl
  init-append x (y ∷ ys) t = ap (λ l. x ∷ l) (init-append y ys t)

  last-Below :
      (k : Bytes) (x : KeyValue D) (xs : List (KeyValue D))
      → Below k (x ∷ xs)
      → bytes_lt (last x xs).raw.key k ≡ true
  last-Below k x [] b = b.0
  last-Below k x (y ∷ ys) b = last-Below k y ys b.1

  not_less : (a b : Bytes) → bytes_lt a b ≡ true → bytes_lt b a ≡ false
  not_less a b h = ground (arith, bytes_lt_irrefl a, bytes_lt_trans a b a)

  EventType-cases : (t : EventType) → t ≢ unknown → (t ≡ put) ⊎ (t ≡ delete)
  EventType-cases put n = inl refl
  EventType-cases delete n = inr refl
  EventType-cases unknown n = absurd (n refl)

  update_new-patch :
      (e : Event) (front : List (KeyValue D))
      → e.type ≢ unknown
      → (err : Option UpdateError) × (update_new decode front e
          ≡ updated (front ++ to_list (patch e none)) err)
  unfolding update_new
  update_new-patch e front n = elim (EventType-cases e.type n) [
    | inl h ↦ elim (Option-cases (decode e.kv)) [
      | inl d ↦ (some undecodable, ground (arith, append-nil front))
      | inr (v, d) ↦ (created_error decode e.kv, ground arith)
    ]
    | inr h ↦ (some unknown_deletion, ground (arith, append-nil front))
  ]

  update_last-patch :
      (e : Event) (front : List (KeyValue D)) (t : KeyValue D)
      → e.type ≢ unknown
      → (err : Option UpdateError) × (update_last decode front t e
          ≡ updated (front ++ to_list (patch e (some t))) err)
  unfolding update_last
  update_last-patch e front t n = elim (Bool-cases (leb e.kv.mod_revision t.raw.mod_revision)) [
    | inl old ↦ (some old_revision, ground arith)
    | inr later ↦ elim (EventType-cases e.type n) [
      | inl h ↦ elim (Option-cases (decode e.kv)) [
        | inl d ↦ (some undecodable, ground arith)
        | inr (v, d) ↦ (modified_error decode t.raw e.kv, ground arith)
      ]
      | inr h ↦ (none, ground (arith, append-nil front))
    ]
  ]

  not_less_same : (a b : Bytes) → a ≡ b → bytes_lt a b ≡ false
  not_less_same a b h = ground (arith, h, bytes_lt_irrefl a)

  update_against-same :
      (e : Event) (kv front : List (KeyValue D)) (t : KeyValue D)
      → t.raw.key ≡ e.kv.key
      → update_against decode kv front t e ≡ update_last decode front t e
  unfolding update_against
  update_against-same e kv front t q =
      rw (not_less_same e.kv.key t.raw.key (sym q), not_less_same t.raw.key e.kv.key q)

  -- Past keys that come before the event's, the update is that of the value of the event's key.
  pub update_tail-fresh :
      (e : Event) (front : List (KeyValue D))
      → Below e.kv.key front
      → e.type ≢ unknown
      → (err : Option UpdateError) × (update_tail decode front e
          ≡ updated (front ++ to_list (patch e none)) err)
  unfolding update_tail update_against
  update_tail-fresh e [] b n = update_new-patch e [] n
  update_tail-fresh e (x ∷ xs) b n =
      let lt = last-Below e.kv.key x xs b in
      rw (update_against, not_less (last x xs).raw.key e.kv.key lt, lt)
        (update_new-patch e (x ∷ xs) n)

  pub update_tail-held :
      (e : Event) (front : List (KeyValue D)) (t : KeyValue D)
      → Below e.kv.key front
      → t.raw.key ≡ e.kv.key
      → e.type ≢ unknown
      → (err : Option UpdateError) × (update_tail decode (front ++ t ∷ []) e
          ≡ updated (front ++ to_list (patch e (some t))) err)
  unfolding update_tail
  update_tail-held e [] t b q n =
      rw (update_against-same e (t ∷ []) [] t q) (update_last-patch e [] t n)
  update_tail-held e (x ∷ xs) t b q n =
      rw
        (
          last-append x xs t,
          init-append x xs t,
          update_against-same e (x ∷ (xs ++ t ∷ [])) (x ∷ xs) t q,
        )
        (update_last-patch e (x ∷ xs) t n)
