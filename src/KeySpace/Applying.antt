-- ===== src/KeySpace/Applying.antt =====
-- What KeySpace.Apply (v2/pkg/keyspace/key_space.go) does to the keys and to the header.
use mathlib.Core.List.{Permᴰ}
use mathlib.Core.List.Permᴰ
use gazette.Prelude.{
  suc, ◌<◌, ◌≡◌, ◌⊎◌, inl, inr, refl, ◌≢◌, Bool, true, false, Option, none, some, List, [], ◌∷◌,
  arith, Bytes, Option-cases, All, Pairwise, map,
}
use gazette.KeySpace.{
  Raw, KeyValue, Event, Header, HeaderError, KeySpace, WatchResponse, unknown, zero_header,
  patch_header,
}
use gazette.KeySpace.Apply.{
  sorted_response, rounds, apply_loop, Rebuild, rebuilt, panicked, out_of_fuel, patch_headers,
  is_progress, drained, expect_same_revision, finish_apply, Applied, applied, apply_panics,
  apply_stuck, apply_responses,
}
use gazette.KeySpace.Tail.{value_at, IsSorted}
use gazette.KeySpace.Order.{SameKeyAscend, Ascending, All-perm}
use gazette.KeySpace.Drain.{all_events, sorted_responses-perm, sorted_responses-HeapAscends}
use gazette.KeySpace.Loop.{patch_all, Rebuilds, apply_loop-Rebuilds, Applicable}

-- Events as Etcd sends them: of known types, and ascending in revision for each key of a response.
abbrev pub IsWatched : List WatchResponse → Type 0
IsWatched rs =
    All (λ r. Pairwise SameKeyAscend r.events) rs × All (λ e. e.type ≢ unknown) (all_events rs)

module _ {D : Type 0} (decode : Raw → Option D) where
  -- The header that the responses make of the key space's.
  abbrev pub next_header : KeySpace D → List WatchResponse → Header × Option HeaderError
  next_header ks rs =
      let hdr = (patch_headers zero_header rs).0 in
      patch_header ks.header hdr (expect_same_revision rs ks.header hdr)

  abbrev pub HeadersFit : KeySpace D → List WatchResponse → Type 0
  HeadersFit ks rs = ((patch_headers zero_header rs).1 ≡ none) × ((next_header ks rs).1 ≡ none)

  -- The key space after the events, which are all taken, in order.
  pub record IsApplied (ks : KeySpace D) (rs : List WatchResponse) (result : Applied D)
      : Type 0 where
    pub after : KeySpace D
    pub taken : List Event
    pub result-applied : result ≡ applied after none
    pub taken-perm : Permᴰ taken (all_events rs)
    pub taken-Ascending : Ascending taken
    pub after-root : after.root ≡ ks.root
    pub after-header : after.header ≡ (next_header ks rs).0
    pub after-IsSorted : IsSorted after.key_values
    pub after-values :
        (j : Bytes)
        → value_at j after.key_values ≡ patch_all decode j taken (value_at j ks.key_values)
    pub told : after.updates ≡ suc ks.updates

  known-Applicable :
      (es : List Event) → All (λ e. e.type ≢ unknown) es → All (Applicable decode []) es
  known-Applicable [] a = tt
  known-Applicable (e ∷ es) a = ((a.0, tt), known-Applicable es a.1)

  loop-Rebuilds :
      (ks : KeySpace D) (rs : List WatchResponse)
      → IsSorted ks.key_values
      → IsWatched rs
      → Rebuilds decode (all_events (map sorted_response rs)) ks.key_values (
          apply_loop decode
            (rounds (map sorted_response rs))
            (map sorted_response rs)
            []
            ks.key_values)
  loop-Rebuilds ks rs s w =
      let heap = map sorted_response rs in
      apply_loop-Rebuilds decode (rounds heap) heap [] ks.key_values (omega arith)
        (sorted_responses-HeapAscends rs w.0)
        (known-Applicable (all_events heap)
          (All-perm (λ e. e.type ≢ unknown) (Permᴰ.symm (sorted_responses-perm rs)) w.1))
        s

  -- If keys ascend, the event types are known, the events of each key ascend in modification
  -- revision within a response, and the headers fit, then Apply ends without a panic or an error:
  -- it takes a permutation of all events that ascends by key and revision, its keys ascend, each
  -- key has the value that the events of that key make, in that order, of the value before, the
  -- header is the patched one, and observers are told once.
  pub apply_responses-IsApplied :
      (ks : KeySpace D) (rs : List WatchResponse)
      → IsSorted ks.key_values
      → IsWatched rs
      → HeadersFit ks rs
      → IsApplied ks rs (apply_responses decode ks rs)
  unfolding apply_responses
  apply_responses-IsApplied ks rs s w h =
      let r = loop-Rebuilds ks rs s w in
      rw (apply_responses, h.0, r.result-rebuilt, finish_apply, h.1)
        record {
          after = record ks {
            header = (next_header ks rs).0;
            key_values = r.after;
            updates = suc ks.updates;
          };
          taken = r.taken;
          result-applied = refl;
          taken-perm = Permᴰ.trans r.taken-perm (sorted_responses-perm rs);
          taken-Ascending = r.taken-Ascending;
          after-root = refl;
          after-header = refl;
          after-IsSorted = r.after-IsSorted;
          after-values = r.after-values;
          told = refl;
        }

  -- If keys ascend, the event types are known and the events of each key ascend in modification
  -- revision within a response, then either the headers fit, or Apply returns an error and leaves
  -- the key space as it was. The headers fit if patchHeader takes those of the responses in turn and
  -- then, over that of the key space, the one they make, which may repeat the revision only for a
  -- lone response of which IsProgressNotify holds once its events are taken.
  pub apply_responses-unfit :
      (ks : KeySpace D) (rs : List WatchResponse)
      → IsSorted ks.key_values
      → IsWatched rs
      → ((e : HeaderError) × (apply_responses decode ks rs ≡ applied ks (some e)))
        ⊎ HeadersFit ks rs
  unfolding apply_responses
  apply_responses-unfit ks rs s w = elim (Option-cases (patch_headers zero_header rs).1) [
    | inr (e, h) ↦ inl (e, rw (apply_responses, h) refl)
    | inl h ↦ elim (Option-cases (next_header ks rs).1) [
      | inr (e, q) ↦ inl (
        e,
        let r = loop-Rebuilds ks rs s w in
            rw (apply_responses, h, r.result-rebuilt, finish_apply, q) refl,
      )
      | inl q ↦ inr (h, q)
    ]
  ]

  -- A later revision, or the same one after a lone response that is a notification of progress when
  -- its events are taken.
  abbrev pub Advances : KeySpace D → List WatchResponse → KeySpace D → Type 0
  Advances ks rs after =
      (ks.header.revision < after.header.revision)
      ⊎ ((ks.header.revision ≡ after.header.revision)
          × ((r : WatchResponse) × (rs ≡ r ∷ []) × (is_progress (drained r) ≡ true)))

  patch_header-later :
      (h u : Header) (same : Bool)
      → (patch_header h u same).1 ≡ none
      → ((patch_header h u same).0 ≡ u) × ((h.revision < u.revision) ⊎ (same ≡ true))
  unfolding patch_header
  patch_header-later h u true p = ground arith
  patch_header-later h u false p = ground arith

  expect_same_revision-lone :
      (rs : List WatchResponse) (h u : Header)
      → expect_same_revision rs h u ≡ true
      → (h.revision ≡ u.revision)
        × ((r : WatchResponse) × (rs ≡ r ∷ []) × (is_progress (drained r) ≡ true))
  expect_same_revision-lone [] h u p = absurd (ground arith)
  expect_same_revision-lone (r ∷ []) h u p = (ground arith, (r, refl, ground arith))
  expect_same_revision-lone (r ∷ s ∷ rs) h u p = absurd (ground arith)

  next_header-Advances :
      (ks : KeySpace D) (rs : List WatchResponse) (kv : List (KeyValue D))
      → (next_header ks rs).1 ≡ none
      → Advances ks rs
          (record ks { header = (next_header ks rs).0; key_values = kv; updates = suc ks.updates })
  next_header-Advances ks rs kv q =
      let hdr = (patch_headers zero_header rs).0 in
      let (same, later) =
        patch_header-later ks.header hdr (expect_same_revision rs ks.header hdr) q in
      elim later [
        | inl l ↦ inl (rw same l)
        | inr l ↦
            let lone = expect_same_revision-lone rs ks.header hdr l in inr (rw same lone.0, lone.1)
      ]

  Rebuild-cases :
      (result : Rebuild (List (KeyValue D)))
      → ((kv : List (KeyValue D)) × (result ≡ rebuilt kv))
        ⊎ ((result ≡ panicked) ⊎ (result ≡ out_of_fuel))
  Rebuild-cases (rebuilt kv) = inl (kv, refl)
  Rebuild-cases panicked = inr (inl refl)
  Rebuild-cases out_of_fuel = inr (inr refl)

  -- What a result says of the key space.
  abbrev pub Advanced : KeySpace D → List WatchResponse → Applied D → Type 0
  Advanced ks rs (applied after none) = Advances ks rs after
  Advanced ks rs (applied after (some e)) = after ≡ ks
  Advanced ks rs apply_panics = Unit
  Advanced ks rs apply_stuck = Unit

  -- For any key space and responses: if Apply returns without an error, the revision is later than
  -- before, or it is the same one and there is only one response, which IsProgressNotify holds of
  -- once its events are taken, whether or not it had any. If Apply returns an error, the key space
  -- is as it was. A panic says nothing.
  pub apply_responses-Advanced :
      (ks : KeySpace D) (rs : List WatchResponse) → Advanced ks rs (apply_responses decode ks rs)
  unfolding apply_responses
  apply_responses-Advanced ks rs = elim (Option-cases (patch_headers zero_header rs).1) [
    | inr (e, h) ↦ rw (apply_responses, h) refl
    | inl h ↦
        elim (Rebuild-cases (
          apply_loop decode (rounds (map sorted_response rs)) (map sorted_response rs) []
            ks.key_values)) [
              | inl (kv, b) ↦ elim (Option-cases (next_header ks rs).1) [
                | inr (e, q) ↦ rw (apply_responses, h, b, finish_apply, q) refl
                | inl q ↦
                    rw (apply_responses, h, b, finish_apply, q) (next_header-Advances ks rs kv q)
              ]
              | inr (inl b) ↦ rw (apply_responses, h, b) tt
              | inr (inr b) ↦ rw (apply_responses, h, b) tt
            ]
  ]
