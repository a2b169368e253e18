-- ===== src/KeySpace/Order.antt =====
-- The order in which KeySpace.Apply (v2/pkg/keyspace/key_space.go) takes events: by key, then by
-- revision of modification.
use mathlib.Core.List.{Permᴰ}
use mathlib.Core.List.Permᴰ
use gazette.Prelude.{
  ◌≡◌, inl, inr, refl, true, false, List, [], ◌∷◌, arith, leb, bytes_eq, bytes_lt, bytes_eq_iff,
  bytes_lt_irrefl, bytes_lt_trans, bytes_lt_total, Bool-cases, All, Pairwise,
}
use gazette.KeySpace.{Event}
use gazette.KeySpace.Apply.{insert_event, sort_events, event_less, events_less}

abbrev pub EventLe : Event → Event → Type 0
EventLe e f = event_less f e ≡ false

-- Events of one key ascend in their revision of modification.
abbrev pub SameKeyAscend : Event → Event → Type 0
SameKeyAscend e f =
    bytes_eq e.kv.key f.kv.key ≡ true → leb e.kv.mod_revision f.kv.mod_revision ≡ true

abbrev pub Ascending : List Event → Type 0
Ascending es = Pairwise EventLe es

module _ {ℓ κ} {A : Type ℓ} (P : A → Type κ) where
  pub All-perm : {xs ys : List A} → Permᴰ xs ys → All P xs → All P ys
  All-perm Permᴰ.nil a = tt
  All-perm (Permᴰ.cons e d) a = (rw e at a.0, All-perm d a.1)
  All-perm (Permᴰ.swap e f) a = (rw f at a.1.0, (rw e at a.0, a.1.1))
  All-perm (Permᴰ.trans d e) a = All-perm e (All-perm d a)

pub EventLe-trans : (a b c : Event) → EventLe a b → EventLe b c → EventLe a c
EventLe-trans a b c p q = ground (
  arith,
  bytes_eq_iff a.kv.key b.kv.key,
  bytes_eq_iff b.kv.key c.kv.key,
  bytes_eq_iff a.kv.key c.kv.key,
  bytes_eq_iff b.kv.key a.kv.key,
  bytes_eq_iff c.kv.key b.kv.key,
  bytes_eq_iff c.kv.key a.kv.key,
  bytes_lt_total a.kv.key b.kv.key,
  bytes_lt_total b.kv.key c.kv.key,
  bytes_lt_trans c.kv.key a.kv.key b.kv.key,
  bytes_lt_trans b.kv.key c.kv.key a.kv.key,
  bytes_lt_irrefl a.kv.key,
  bytes_lt_irrefl b.kv.key,
)

pub EventLe-key : (a b : Event) → EventLe a b → bytes_lt b.kv.key a.kv.key ≡ false
EventLe-key a b p = ground (arith, bytes_eq_iff b.kv.key a.kv.key, bytes_lt_irrefl a.kv.key)

less-EventLe : (a b : Event) → event_less a b ≡ true → EventLe a b
less-EventLe a b p = ground (
  arith,
  bytes_eq_iff a.kv.key b.kv.key,
  bytes_eq_iff b.kv.key a.kv.key,
  bytes_lt_trans a.kv.key b.kv.key a.kv.key,
  bytes_lt_irrefl a.kv.key,
)

All-EventLe :
    (a b : Event) (es : List Event) → EventLe a b → All (EventLe b) es → All (EventLe a) es
All-EventLe a b [] p q = tt
All-EventLe a b (e ∷ es) p q = (EventLe-trans a b e p q.0, All-EventLe a b es p q.1)

-- No event of the second list may come before the first list's head.
abbrev pub EventsLe : List Event → List Event → Type 0
EventsLe es fs = events_less fs es ≡ false

pub EventsLe-trans : (es fs gs : List Event) → EventsLe es fs → EventsLe fs gs → EventsLe es gs
EventsLe-trans [] fs [] p q = refl
EventsLe-trans [] fs (g ∷ gs) p q = refl
EventsLe-trans (e ∷ es) [] gs p q = absurd (ground arith)
EventsLe-trans (e ∷ es) (f ∷ fs) [] p q = absurd (ground arith)
EventsLe-trans (e ∷ es) (f ∷ fs) (g ∷ gs) p q = EventLe-trans e f g p q

pub less-EventsLe : (es fs : List Event) → events_less es fs ≡ true → EventsLe es fs
less-EventsLe [] [] p = refl
less-EventsLe [] (f ∷ fs) p = refl
less-EventsLe (e ∷ es) [] p = absurd (ground arith)
less-EventsLe (e ∷ es) (f ∷ fs) p = less-EventLe e f p

pub EventsLe-All :
    (e : Event) (es fs : List Event) → Ascending fs → EventsLe (e ∷ es) fs → All (EventLe e) fs
EventsLe-All e es [] s p = tt
EventsLe-All e es (f ∷ fs) s p = (p, All-EventLe e f fs p s.0)

-- The stable sort, of a list whose events of one key ascend, gives an ascending list.
insert_event-perm : (e : Event) (es : List Event) → Permᴰ (insert_event e es) (e ∷ es)
insert_event-perm e [] = Permᴰ.refl (e ∷ [])
insert_event-perm e (f ∷ fs) = elim (Bool-cases (bytes_lt f.kv.key e.kv.key)) [
  | inl h ↦ rw h (Permᴰ.trans (Permᴰ.cons refl (insert_event-perm e fs)) (Permᴰ.swap refl refl))
  | inr h ↦ rw h (Permᴰ.refl (e ∷ f ∷ fs))
]

pub sort_events-perm : (es : List Event) → Permᴰ (sort_events es) es
sort_events-perm [] = Permᴰ.nil
sort_events-perm (e ∷ es) =
    Permᴰ.trans (insert_event-perm e (sort_events es)) (Permᴰ.cons refl (sort_events-perm es))

before-EventLe :
    (e f : Event) → bytes_lt f.kv.key e.kv.key ≡ false → SameKeyAscend e f → EventLe e f
before-EventLe e f h a =
    ground (arith, h, a, bytes_eq_iff e.kv.key f.kv.key, bytes_eq_iff f.kv.key e.kv.key)

after-EventLe : (e f : Event) → bytes_lt f.kv.key e.kv.key ≡ true → EventLe f e
after-EventLe e f h = ground (
  arith,
  bytes_eq_iff e.kv.key f.kv.key,
  bytes_lt_irrefl f.kv.key,
  bytes_lt_trans e.kv.key f.kv.key e.kv.key,
  bytes_lt_irrefl e.kv.key,
)

insert_event-Ascending :
    (e : Event) (es : List Event)
    → All (SameKeyAscend e) es
    → Ascending es
    → Ascending (insert_event e es)
insert_event-Ascending e [] a s = (tt, tt)
insert_event-Ascending e (f ∷ fs) a s = elim (Bool-cases (bytes_lt f.kv.key e.kv.key)) [
  | inl h ↦ rw h (
    All-perm (EventLe f) (Permᴰ.symm (insert_event-perm e fs)) (after-EventLe e f h, s.0),
    insert_event-Ascending e fs a.1 s.1,
  )
  | inr h ↦ let p = before-EventLe e f h a.0 in rw h ((p, All-EventLe e f fs p s.0), s)
]

pub sort_events-Ascending :
    (es : List Event) → Pairwise SameKeyAscend es → Ascending (sort_events es)
sort_events-Ascending [] p = tt
sort_events-Ascending (e ∷ es) p =
    insert_event-Ascending e (sort_events es)
      (All-perm (SameKeyAscend e) (Permᴰ.symm (sort_events-perm es)) p.0)
      (sort_events-Ascending es p.1)
