-- ===== src/KeySpace/Apply.antt =====
-- KeySpace.Apply of v2/pkg/keyspace/key_space.go. Its heap is a list from which a least response is
-- taken; which of several least ones it is does not matter to the order of events.
use gazette.Prelude.{
  ℕ, zero, suc, ◌+◌, Bool, true, false, ◌&&◌, not, Option, none, some, List, [], ◌∷◌, ◌++◌, ltb,
  ◌==◌, if◌then◌else◌, bytes_eq, bytes_lt, length, take, drop, map,
}
use gazette.KeySpace.{
  Raw, KeyValue, Event, Update, updated, panics, Header, WatchResponse, KeySpace, HeaderError,
  zero_header, patch_header, update_tail, passed_through,
}

-- sort.SliceStable on the key: an element goes before the first that its key does not come after.
abbrev pub insert_event : Event → List Event → List Event
insert_event e [] = e ∷ []
insert_event e (f ∷ fs) =
    let rest = insert_event e fs in if bytes_lt f.kv.key e.kv.key then f ∷ rest else e ∷ f ∷ fs

abbrev pub sort_events : List Event → List Event
sort_events [] = []
sort_events (e ∷ es) = insert_event e (sort_events es)

abbrev pub sorted_response : WatchResponse → WatchResponse
sorted_response r = record r { events = sort_events r.events }

-- The order of the heap.
abbrev pub event_less : Event → Event → Bool
event_less a b =
    if not (bytes_eq a.kv.key b.kv.key)
    then bytes_lt a.kv.key b.kv.key
    else ltb a.kv.mod_revision b.kv.mod_revision

abbrev pub events_less : List Event → List Event → Bool
events_less [] [] = false
events_less [] (f ∷ fs) = true
events_less (e ∷ es) [] = false
events_less (e ∷ es) (f ∷ fs) = event_less e f

-- heap.Pop: a least response, and the others.
unfoldable pub pop_least : WatchResponse → List WatchResponse → WatchResponse × List WatchResponse
pop_least r [] = (r, [])
pop_least r (s ∷ ss) =
    let popped = pop_least s ss in
    if events_less popped.0.events r.events then (popped.0, r ∷ popped.1) else (r, s ∷ ss)

-- The rounds that the heap can take.
abbrev pub rounds : List WatchResponse → ℕ
rounds [] = 0
rounds (r ∷ rs) = suc (length r.events) + rounds rs

unfoldable pub patch_headers : Header → List WatchResponse → Header × Option HeaderError
unfolding patch_header
patch_headers hdr [] = (hdr, none)
patch_headers hdr (r ∷ rs) =
    let (hdr', err) = patch_header hdr r.header false in
    elim err [ none ↦ patch_headers hdr' rs | some e ↦ (hdr', some e) ]

pub data Rebuild (A : Type 0) : Type 0 where
  rebuilt : A → Rebuild A
  panicked : Rebuild A
  out_of_fuel : Rebuild A

pub data Applied (D : Type 0) : Type 0 where
  applied : KeySpace D → Option HeaderError → Applied D
  apply_panics : Applied D
  apply_stuck : Applied D

-- A response when the loop is over: the heap is over the array of the responses, and a response comes
-- back to it as each of its events is taken.
abbrev pub drained : WatchResponse → WatchResponse
drained r = record r { events = [] }

abbrev pub is_progress : WatchResponse → Bool
is_progress r = r.is_progress_notify r.events

-- A lone notification of progress may repeat the revision that is known. It is asked of the drained
-- response, so that one that had events may repeat it too.
abbrev pub expect_same_revision : List WatchResponse → Header → Header → Bool
expect_same_revision [] current hdr = false
expect_same_revision (r ∷ []) current hdr =
    is_progress (drained r) && current.revision == hdr.revision
expect_same_revision (r ∷ s ∷ rs) current hdr = false

module _ {D : Type 0} (decode : Raw → Option D) where
  -- `ind` keys are passed on, and the tail is updated.
  unfoldable pub pass_and_update :
      List (KeyValue D)
      → List (KeyValue D)
      → Event
      → ℕ
      → Update (List (KeyValue D) × List (KeyValue D))
  pass_and_update next current event ind =
      elim (update_tail decode (next ++ take ind current) event) [
        | updated next' err ↦ updated (next', drop ind current) err
        | panics ↦ panics
      ]

  unfoldable pub apply_event :
      List (KeyValue D) → List (KeyValue D) → Event → Update (List (KeyValue D) × List (KeyValue D))
  unfolding passed_through
  apply_event next current event =
      pass_and_update next current event (passed_through decode current event.kv.key)

  unfoldable pub apply_loop :
      ℕ → List WatchResponse → List (KeyValue D) → List (KeyValue D) → Rebuild (List (KeyValue D))
  unfolding apply_event pop_least
  apply_loop fuel [] next current = rebuilt (next ++ current)
  apply_loop zero (r ∷ rs) next current = out_of_fuel
  apply_loop (suc fuel) (r ∷ rs) next current =
      let (least, others) = pop_least r rs in
      elim least.events [
        | [] ↦ apply_loop fuel others next current
        | e ∷ es ↦ elim (apply_event next current e) [
          | updated (next', current') err ↦
              apply_loop fuel (record least { events = es } ∷ others) next' current'
          | panics ↦ panicked
        ]
      ]

  -- The critical section: on an inconsistent header the key space stays as it was.
  abbrev pub finish_apply : KeySpace D → Header × Option HeaderError → List (KeyValue D) → Applied D
  finish_apply ks (hdr, none) next =
      applied (record ks { header = hdr; key_values = next; updates = suc ks.updates }) none
  finish_apply ks (hdr, some e) next = applied ks (some e)

  unfoldable pub apply_responses : KeySpace D → List WatchResponse → Applied D
  unfolding patch_headers patch_header apply_loop
  apply_responses ks responses =
      let (hdr, err) = patch_headers zero_header responses in
      let heap = map sorted_response responses in
      elim err [
        | some e ↦ applied ks (some e)
        | none ↦ elim (apply_loop (rounds heap) heap [] ks.key_values) [
          | rebuilt next ↦
              finish_apply ks
                (patch_header ks.header hdr (expect_same_revision responses ks.header hdr)) next
          | panicked ↦ apply_panics
          | out_of_fuel ↦ apply_stuck
        ]
      ]
