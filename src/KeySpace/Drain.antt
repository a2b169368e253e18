-- ===== src/KeySpace/Drain.antt =====
-- The heap of KeySpace.Apply (v2/pkg/keyspace/key_space.go) hands out all events in order.
use mathlib.Core.List.{Permᴰ, append_assoc}
use mathlib.Core.List.Permᴰ
use gazette.Prelude.{
  ◌≡◌, inl, inr, refl, sym, ◌∙◌, List, [], ◌∷◌, ◌++◌, arith, Bool-cases, All, Pairwise, All-append,
  map,
}
use gazette.KeySpace.{Event, WatchResponse}
use gazette.KeySpace.Apply.{sorted_response, events_less, pop_least, rounds}
use gazette.KeySpace.Order.{
  EventLe, SameKeyAscend, Ascending, All-perm, EventsLe, EventsLe-trans, less-EventsLe,
  EventsLe-All, sort_events-perm, sort_events-Ascending,
}

abbrev pub all_events : List WatchResponse → List Event
all_events [] = []
all_events (r ∷ rs) = r.events ++ all_events rs

abbrev pub HeapAscends : List WatchResponse → Type 0
HeapAscends rs = All (λ r. Ascending r.events) rs

all_events-perm : {rs ss : List WatchResponse} → Permᴰ rs ss → Permᴰ (all_events rs) (all_events ss)
all_events-perm Permᴰ.nil = Permᴰ.nil
all_events-perm (Permᴰ.cons {a} {b} e d) = rw e (Permᴰ.append_left b.events (all_events-perm d))
all_events-perm (Permᴰ.swap {a} {b} {l = l} e f) =
    rw
      (
        sym e,
        sym f,
        sym (append_assoc a.events b.events (all_events l)),
        sym (append_assoc b.events a.events (all_events l)),
      )
      (Permᴰ.append_right (all_events l) (Permᴰ.append_comm a.events b.events))
all_events-perm (Permᴰ.trans d e) = Permᴰ.trans (all_events-perm d) (all_events-perm e)

rounds-perm : {rs ss : List WatchResponse} → Permᴰ rs ss → rounds rs ≡ rounds ss
rounds-perm Permᴰ.nil = refl
rounds-perm (Permᴰ.cons e d) = rw (e, rounds-perm d) refl
rounds-perm (Permᴰ.swap e f) = rw (e, f) (omega arith)
rounds-perm (Permᴰ.trans d e) = rounds-perm d ∙ rounds-perm e

-- A response that may come first, and the others.
pub record Popped (r : WatchResponse) (rs : List WatchResponse)
    (popped : WatchResponse × List WatchResponse) : Type 0 where
  pub perm : Permᴰ (r ∷ rs) (popped.0 ∷ popped.1)
  pub least : All (λ s. EventsLe popped.0.events s.events) popped.1

EventsLe-later :
    (r p : WatchResponse) (ss : List WatchResponse)
    → EventsLe r.events p.events
    → All (λ s. EventsLe p.events s.events) ss
    → All (λ s. EventsLe r.events s.events) ss
EventsLe-later r p [] h a = tt
EventsLe-later r p (s ∷ ss) h a =
    (EventsLe-trans r.events p.events s.events h a.0, EventsLe-later r p ss h a.1)

pub pop_least-Popped : (r : WatchResponse) (rs : List WatchResponse) → Popped r rs (pop_least r rs)
unfolding pop_least
pop_least-Popped r [] = record { perm = Permᴰ.refl (r ∷ []); least = tt }
pop_least-Popped r (s ∷ ss) =
    let rest = pop_least-Popped s ss in
    let p = (pop_least s ss).0 in
    elim (Bool-cases (events_less p.events r.events)) [
      | inl h ↦ rw h record {
        perm = Permᴰ.trans (Permᴰ.cons refl rest.perm) (Permᴰ.swap refl refl);
        least = (less-EventsLe p.events r.events h, rest.least);
      }
      | inr h ↦ rw h record {
        perm = Permᴰ.refl (r ∷ s ∷ ss);
        least =
            All-perm (λ s. EventsLe r.events s.events) (Permᴰ.symm rest.perm)
              (h, EventsLe-later r p (pop_least s ss).1 h rest.least);
      }
    ]

-- The head of the least response comes before all that is left.
pub head-EventLe :
    (e : Event) (es : List Event) (ss : List WatchResponse)
    → Ascending (e ∷ es)
    → HeapAscends ss
    → All (λ s. EventsLe (e ∷ es) s.events) ss
    → All (EventLe e) (es ++ all_events ss)
head-EventLe e es ss a h l = All-append (EventLe e) es (all_events ss) a.0 (others ss h l)
  where
    others :
        (ss : List WatchResponse)
        → HeapAscends ss
        → All (λ s. EventsLe (e ∷ es) s.events) ss
        → All (EventLe e) (all_events ss)
    others [] h l = tt
    others (s ∷ ss) h l =
        All-append (EventLe e) s.events (all_events ss) (EventsLe-All e es s.events h.0 l.0)
          (others ss h.1 l.1)

-- Sorting the responses' events.
pub sorted_responses-perm :
    (rs : List WatchResponse) → Permᴰ (all_events (map sorted_response rs)) (all_events rs)
sorted_responses-perm [] = Permᴰ.nil
sorted_responses-perm (r ∷ rs) =
    Permᴰ.trans
      (Permᴰ.append_right (all_events (map sorted_response rs)) (sort_events-perm r.events))
      (Permᴰ.append_left r.events (sorted_responses-perm rs))

pub sorted_responses-HeapAscends :
    (rs : List WatchResponse)
    → All (λ r. Pairwise SameKeyAscend r.events) rs
    → HeapAscends (map sorted_response rs)
sorted_responses-HeapAscends [] a = tt
sorted_responses-HeapAscends (r ∷ rs) a =
    (sort_events-Ascending r.events a.0, sorted_responses-HeapAscends rs a.1)

pub pop_least-perm :
    (r : WatchResponse) (rs : List WatchResponse)
    → Permᴰ (all_events (r ∷ rs)) (all_events ((pop_least r rs).0 ∷ (pop_least r rs).1))
pop_least-perm r rs = all_events-perm (pop_least-Popped r rs).perm

pub pop_least-rounds :
    (r : WatchResponse) (rs : List WatchResponse)
    → rounds (r ∷ rs) ≡ rounds ((pop_least r rs).0 ∷ (pop_least r rs).1)
pop_least-rounds r rs = rounds-perm (pop_least-Popped r rs).perm

pub pop_least-HeapAscends :
    (r : WatchResponse) (rs : List WatchResponse)
    → HeapAscends (r ∷ rs)
    → HeapAscends ((pop_least r rs).0 ∷ (pop_least r rs).1)
pop_least-HeapAscends r rs h = All-perm (λ r. Ascending r.events) (pop_least-Popped r rs).perm h
