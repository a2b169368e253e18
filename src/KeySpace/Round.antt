-- ===== src/KeySpace/Round.antt =====
-- One round of KeySpace.Apply (v2/pkg/keyspace/key_space.go): the effect of an event on all keys.
use mathlib.Core.List.{append_assoc, append-nil}
use gazette.Prelude.{
  ℕ, ◌≡◌, refl, sym, ap, ◌∙◌, ◌≢◌, false, Option, none, some, List, ◌++◌, arith, if◌then◌else◌,
  Bytes, bytes_eq, bytes_lt, bytes_eq_iff, take, drop, Pairwise-append_left, Pairwise-append_right,
  All-append, take-drop,
}
use gazette.Go.Search.{search_index-prefix_length}
use gazette.KeySpace.{
  Raw, KeyValue, unknown, Event, UpdateError, updated, key_from, search_key, passed_through,
  update_tail,
}
use gazette.KeySpace.Apply.{apply_event, pass_and_update}
use gazette.KeySpace.Tail.{
  value_at, KeyLess, IsSorted, Below, or_else, to_list, patch, update_tail-fresh, update_tail-held,
}
use gazette.KeySpace.Around.{
  AtMost, Above, HasKey, HasKey-if_some, key_from-IsMonotone, through, through-splits, AtMost-split,
  value_at-around, around-IsSorted, AtMost-around,
}

module _ {D : Type 0} (decode : Raw → Option D) where
  patch-HasKey :
      (e : Event) (o : Option (KeyValue D)) → HasKey e.kv.key o → HasKey e.kv.key (patch decode e o)
  patch-HasKey e none h = HasKey-if_some e.kv.key (patch decode e none) (λ x q. ground arith)
  patch-HasKey e (some t) h =
      HasKey-if_some e.kv.key (patch decode e (some t)) (λ x q. ground arith)

  -- One round: the keys stay in order, those passed are at most the event's, and only the value of
  -- the event's key changes.
  pub record Patched (e : Event) (next current next' current' : List (KeyValue D)) : Type 0 where
    pub sorted : IsSorted (next' ++ current')
    pub at_most : AtMost e.kv.key next'
    pub values :
        (j : Bytes)
        → value_at j (next' ++ current') ≡ (
            if bytes_eq e.kv.key j
            then patch decode e (value_at e.kv.key (next ++ current))
            else value_at j (next ++ current))

  update_tail-around :
      (e : Event) (front : List (KeyValue D)) (o : Option (KeyValue D))
      → HasKey e.kv.key o
      → Below e.kv.key front
      → e.type ≢ unknown
      → (err : Option UpdateError) × (update_tail decode (front ++ to_list o) e
          ≡ updated (front ++ to_list (patch decode e o)) err)
  update_tail-around e front none h b n =
      rw (append-nil front) (update_tail-fresh decode e front b n)
  update_tail-around e front (some t) h b n = update_tail-held decode e front t b h n

  passed_through-eq :
      (xs : List (KeyValue D)) (k : Bytes) → IsSorted xs → passed_through decode xs k ≡ through k xs
  unfolding search_key
  passed_through-eq xs k s =
      rw (search_index-prefix_length (key_from k) xs (key_from-IsMonotone k xs s)) refl

  -- The values after a round, given how the keys divide.
  divided-Patched :
      (e : Event) (next current front rest : List (KeyValue D)) (o : Option (KeyValue D))
      → next ++ current ≡ front ++ to_list o ++ rest
      → IsSorted (next ++ current)
      → HasKey e.kv.key o
      → Below e.kv.key front
      → Above e.kv.key rest
      → Patched e next current (front ++ to_list (patch decode e o)) rest
  divided-Patched e next current front rest o q s h b a =
      let k = e.kv.key in
      let h' = patch-HasKey e o h in
      let t : IsSorted (front ++ to_list o ++ rest) = (rw (sym q) s) in
      record {
        sorted =
            around-IsSorted k front (patch decode e o) rest h' b a
              (Pairwise-append_left KeyLess front (to_list o)
                (Pairwise-append_left KeyLess (front ++ to_list o) rest t))
              (Pairwise-append_right KeyLess (front ++ to_list o) rest t);
        at_most = AtMost-around k front (patch decode e o) h' b;
        values = λ j.
            let was : value_at j (next ++ current)
                ≡ (if bytes_eq k j then o else or_else (value_at j front) (value_at j rest)) =
              ap (value_at j) q ∙ value_at-around k j front o rest h b a in
            let own : value_at k (next ++ current) ≡ o =
              ap (value_at k) q
              ∙ value_at-around k k front o rest h b a
              ∙ ground (arith, bytes_eq_iff k k) in
            value_at-around k j front (patch decode e o) rest h' b a ∙ ground (arith, was, own);
      }

  apply_event-through :
      (next current : List (KeyValue D)) (e : Event)
      → IsSorted current
      → apply_event decode next current e
        ≡ pass_and_update decode next current e (through e.kv.key current)
  unfolding apply_event
  apply_event-through next current e s =
      ap (pass_and_update decode next current e) (passed_through-eq current e.kv.key s)

  pass_and_update-updated :
      (next current : List (KeyValue D)) (e : Event) (i : ℕ) {next' : List (KeyValue D)}
      {err : Option UpdateError}
      → update_tail decode (next ++ take i current) e ≡ updated next' err
      → pass_and_update decode next current e i ≡ updated (next', drop i current) err
  unfolding pass_and_update
  pass_and_update-updated next current e i h = rw (pass_and_update, h) refl

  pub apply_event-Patched :
      (next current : List (KeyValue D)) (e : Event)
      → IsSorted (next ++ current)
      → AtMost e.kv.key next
      → e.type ≢ unknown
      → (next' : List (KeyValue D)) × (current' : List (KeyValue D)) × (err : Option UpdateError)
        × (apply_event decode next current e ≡ updated (next', current') err)
        × Patched e next current next' current'
  apply_event-Patched next current e s a n =
      let k = e.kv.key in
      let i = through k current in
      let sc = Pairwise-append_right KeyLess next current s in
      let (low, high) = through-splits k current sc in
      let whole : next ++ take i current ++ drop i current ≡ next ++ current =
        append_assoc next (take i current) (drop i current)
        ∙ ap (λ t. next ++ t) (take-drop i current) in
      let ordered : IsSorted (next ++ take i current ++ drop i current) = (rw whole s) in
      let (front, o, q, b, h) =
        AtMost-split k (next ++ take i current)
          (Pairwise-append_left KeyLess (next ++ take i current) (drop i current) ordered)
          (All-append (λ x. bytes_lt k x.raw.key ≡ false) next (take i current) a low) in
      let (err, u) = update_tail-around e front o h b n in
      (
        front ++ to_list (patch decode e o),
        drop i current,
        err,
        apply_event-through next current e sc
            ∙ pass_and_update-updated next current e i (ap (λ t. update_tail decode t e) q ∙ u),
        divided-Patched e next current front (drop i current) o
            (sym whole ∙ ap (λ t. t ++ drop i current) q) s h b high,
      )
