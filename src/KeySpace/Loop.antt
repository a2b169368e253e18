-- ===== src/KeySpace/Loop.antt =====
-- The loop of KeySpace.Apply (v2/pkg/keyspace/key_space.go) patches each key's value by its events.
use mathlib.Core.List.{Permᴰ}
use mathlib.Core.List.Permᴰ
use gazette.Prelude.{
  ℕ, zero, suc, ◌+◌, ◌≤◌, ◌≡◌, inl, inr, refl, ap, ◌∙◌, ◌≢◌, false, Option, List, [], ◌∷◌, ◌++◌,
  arith, if◌then◌else◌, Bytes, bytes_eq, bytes_lt, bytes_eq_iff, bytes_lt_total, bytes_lt_trans,
  Bool-cases, All, length,
}
use gazette.KeySpace.{Raw, KeyValue, Event, WatchResponse, unknown, updated}
use gazette.KeySpace.Apply.{pop_least, rounds, apply_loop, apply_event, Rebuild, rebuilt}
use gazette.KeySpace.Tail.{value_at, IsSorted, patch}
use gazette.KeySpace.Around.{AtMost}
use gazette.KeySpace.Round.{Patched, apply_event-Patched}
use gazette.KeySpace.Order.{EventLe, EventsLe, EventLe-key, Ascending, All-perm}
use gazette.KeySpace.Drain.{
  all_events, HeapAscends, pop_least-Popped, pop_least-perm, pop_least-rounds,
  pop_least-HeapAscends, head-EventLe,
}

module _ {D : Type 0} (decode : Raw → Option D) where
  -- The value of a key after events.
  abbrev pub patch_all : Bytes → List Event → Option (KeyValue D) → Option (KeyValue D)
  patch_all j [] o = o
  patch_all j (e ∷ es) o = patch_all j es (if bytes_eq e.kv.key j then patch decode e o else o)

  -- The events are taken in order, and the keys have the values that they give, in order.
  pub record Rebuilds (events : List Event) (before : List (KeyValue D))
      (result : Rebuild (List (KeyValue D))) : Type 0 where
    pub after : List (KeyValue D)
    pub taken : List Event
    pub result-rebuilt : result ≡ rebuilt after
    pub taken-perm : Permᴰ taken events
    pub taken-Ascending : Ascending taken
    pub after-IsSorted : IsSorted after
    pub after-values : (j : Bytes) → value_at j after ≡ patch_all j taken (value_at j before)

  -- A known type, and a key that may come next.
  abbrev pub Applicable : List (KeyValue D) → Event → Type 0
  Applicable next e = (e.type ≢ unknown) × AtMost e.kv.key next

  patch-key :
      (e : Event) (j : Bytes) (kv : List (KeyValue D))
      → (if bytes_eq e.kv.key j then patch decode e (value_at e.kv.key kv) else value_at j kv)
        ≡ (if bytes_eq e.kv.key j then patch decode e (value_at j kv) else value_at j kv)
  patch-key e j kv = elim (Bool-cases (bytes_eq e.kv.key j)) [
    | inl h ↦ rw (h, (bytes_eq_iff e.kv.key j).0 h) refl
    | inr h ↦ rw h refl
  ]

  AtMost-later :
      (a b : Bytes) (xs : List (KeyValue D)) → bytes_lt b a ≡ false → AtMost a xs → AtMost b xs
  AtMost-later a b [] h m = tt
  AtMost-later a b (x ∷ xs) h m = (
    ground (arith, h, m.0, bytes_lt_total a b, bytes_lt_trans a b x.raw.key),
    AtMost-later a b xs h m.1,
  )

  later-Applicable :
      (e : Event) (next next' : List (KeyValue D)) (fs : List Event)
      → AtMost e.kv.key next'
      → All (EventLe e) fs
      → All (Applicable next) fs
      → All (Applicable next') fs
  later-Applicable e next next' [] m l a = tt
  later-Applicable e next next' (f ∷ fs) m l a = (
    (a.0.0, AtMost-later e.kv.key f.kv.key next' (EventLe-key e f l.0) m),
    later-Applicable e next next' fs m l.1 a.1,
  )

  -- One event taken, then the rest.
  prepend :
      (e : Event) (fs gs : List Event) (next current next' current' : List (KeyValue D))
      (result : Rebuild (List (KeyValue D)))
      → Patched decode e next current next' current'
      → All (EventLe e) fs
      → Permᴰ (e ∷ fs) gs
      → Rebuilds fs (next' ++ current') result
      → Rebuilds gs (next ++ current) result
  prepend e fs gs next current next' current' result p l d r = record {
    after = r.after;
    taken = e ∷ r.taken;
    result-rebuilt = r.result-rebuilt;
    taken-perm = Permᴰ.trans (Permᴰ.cons refl r.taken-perm) d;
    taken-Ascending = (All-perm (EventLe e) (Permᴰ.symm r.taken-perm) l, r.taken-Ascending);
    after-IsSorted = r.after-IsSorted;
    after-values = λ j.
        r.after-values j ∙ ap (patch_all j r.taken) (p.values j ∙ patch-key e j (next ++ current));
  }

  same_events :
      (fs gs : List Event) (before : List (KeyValue D)) (result : Rebuild (List (KeyValue D)))
      → Permᴰ fs gs
      → Rebuilds fs before result
      → Rebuilds gs before result
  same_events fs gs before result d r = record {
    after = r.after;
    taken = r.taken;
    result-rebuilt = r.result-rebuilt;
    taken-perm = Permᴰ.trans r.taken-perm d;
    taken-Ascending = r.taken-Ascending;
    after-IsSorted = r.after-IsSorted;
    after-values = r.after-values;
  }

  -- The body of the loop, by the least response.
  abbrev after_pop :
      ℕ
      → WatchResponse
      → List Event
      → List WatchResponse
      → List (KeyValue D)
      → List (KeyValue D)
      → Rebuild (List (KeyValue D))
  after_pop fuel least events others next current = elim events [
    | [] ↦ apply_loop decode fuel others next current
    | e ∷ es ↦ elim (apply_event decode next current e) [
      | updated (next', current') err ↦
          apply_loop decode fuel (record least { events = es } ∷ others) next' current'
      | _ ↦ Rebuild.panicked
    ]
  ]

  -- The loop does so at a given amount of fuel.
  abbrev LoopRebuilds : ℕ → Type 0
  LoopRebuilds fuel =
      (heap : List WatchResponse) (next current : List (KeyValue D))
      → rounds heap ≤ fuel
      → HeapAscends heap
      → All (Applicable next) (all_events heap)
      → IsSorted (next ++ current)
      → Rebuilds (all_events heap) (next ++ current) (apply_loop decode fuel heap next current)

  after_pop-Rebuilds :
      (fuel : ℕ) (least : WatchResponse) (events : List Event) (others : List WatchResponse)
      (next current : List (KeyValue D))
      → LoopRebuilds fuel
      → suc (length events) + rounds others ≤ suc fuel
      → Ascending events × HeapAscends others
      → All (Applicable next) (events ++ all_events others)
      → All (λ t. EventsLe events t.events) others
      → IsSorted (next ++ current)
      → Rebuilds
          (events ++ all_events others)
          (next ++ current)
          (after_pop fuel least events others next current)
  after_pop-Rebuilds fuel least [] others next current ih n h a l s =
      ih others next current (omega (arith, n)) h.1 a s
  after_pop-Rebuilds fuel least (e ∷ es) others next current ih n h a l s =
      let (next', current', err, q, p) = apply_event-Patched decode next current e s a.0.1 a.0.0 in
      let later = head-EventLe e es others h.0 h.1 l in
      let heap = record least { events = es } ∷ others in
      let rest =
        ih heap next' current' (omega (arith, n)) (h.0.1, h.1)
          (later-Applicable e next next' (es ++ all_events others) p.at_most later a.1) p.sorted in
      rw (after_pop, q)
        (prepend e (es ++ all_events others) (e ∷ (es ++ all_events others)) next current next'
          current' _ p later (Permᴰ.refl _) rest)

  pub apply_loop-Rebuilds : (fuel : ℕ) → LoopRebuilds fuel
  unfolding apply_loop
  apply_loop-Rebuilds fuel [] next current n h a s = record {
    after = next ++ current;
    taken = [];
    result-rebuilt = refl;
    taken-perm = Permᴰ.nil;
    taken-Ascending = tt;
    after-IsSorted = s;
    after-values = λ j. refl;
  }
  apply_loop-Rebuilds zero (r ∷ rs) next current n h a s = absurd (omega arith)
  apply_loop-Rebuilds (suc fuel) (r ∷ rs) next current n h a s =
      same_events (all_events ((pop_least r rs).0 ∷ (pop_least r rs).1)) (all_events (r ∷ rs))
        (next ++ current) _ (Permᴰ.symm (pop_least-perm r rs))
        (after_pop-Rebuilds fuel (pop_least r rs).0 (pop_least r rs).0.events (pop_least r rs).1
          next current (apply_loop-Rebuilds fuel) (omega (arith, pop_least-rounds r rs, n))
          (pop_least-HeapAscends r rs h) (All-perm (Applicable next) (pop_least-perm r rs) a)
          (pop_least-Popped r rs).least s)
