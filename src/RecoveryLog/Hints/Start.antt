-- ===== src/RecoveryLog/Hints/Start.antt =====
-- A machine made of hints (v2/pkg/recoverylog/fsm.go) is fit to play.
use gazette.Prelude.{ℕ, ◌≡◌, inl, inr, refl, true, false, List, [], ◌∷◌, ◌++◌, Bool-cases}
use gazette.Go.Map.{bytes_key, nat_key, lookup}
use gazette.RecoveryLog.Segment.{Segment, SegmentSet, Result, ok, err, panics, add}
use gazette.RecoveryLog.Segment.Loop.{IsOrdered}
use gazette.RecoveryLog.Segment.Adding.{IsSound}
use gazette.RecoveryLog.Segment.Placing.{add-IsSound}
use gazette.RecoveryLog.Fsm.{Fsm, FnodeSegments, FsmHints}
use gazette.RecoveryLog.Fsm.Invariant.{IsConsistent}
use gazette.RecoveryLog.Fsm.Apply.{Ahead, IsPlayable}
use gazette.RecoveryLog.Hints.{
  Loading, loaded, failed, crashed, add_all, starts_at, out_of_turn, collect, live_log_segments,
  begin_at, hinted_start, no_name, new_fsm,
}

add_all-IsSound : (set : SegmentSet) (ss : List Segment) → IsOrdered set → IsSound (add_all set ss)
unfolding add_all
add_all-IsSound set [] o = o
add_all-IsSound set (s ∷ ss) o =
    go (λ grown h. add_all-IsSound grown ss h) (add set s) refl (add-IsSound set s o)
  where
    go :
        ((grown : SegmentSet) → IsOrdered grown → IsSound (add_all grown ss))
        → (r : Result SegmentSet) → add set s ≡ r
        → IsSound r
        → IsSound (add_all set (s ∷ ss))
    go more (ok grown) e h = rw (add_all, e) (more grown h)
    go more (err c) e h = rw (add_all, e) tt
    go more panics e h = absurd h

abbrev IsCollected : Loading (List ℕ × SegmentSet) → Type 0
IsCollected (loaded (fnodes, set)) = IsOrdered set
IsCollected (failed e) = Unit
IsCollected crashed = ⊥

collect-IsCollected :
    (fnodes : List ℕ) (set : SegmentSet) (ns : List FnodeSegments)
    → IsOrdered set
    → IsCollected (collect fnodes set ns)
unfolding collect
collect-IsCollected fnodes set [] o = o
collect-IsCollected fnodes set (n ∷ ns) o = elim (Bool-cases (starts_at n.segments n.fnode)) [
  | inr q ↦ rw (collect, q) tt
  | inl q ↦ elim (Bool-cases (out_of_turn fnodes n.fnode)) [
    | inl r ↦ rw (collect, q, r) tt
    | inr r ↦
        go q r (λ grown h. collect-IsCollected (fnodes ++ n.fnode ∷ []) grown ns h)
          (add_all set n.segments) refl (add_all-IsSound set n.segments o)
  ]
]
  where
    go :
        starts_at n.segments n.fnode ≡ true
        → out_of_turn fnodes n.fnode ≡ false
        → ((grown : SegmentSet)
            → IsOrdered grown
            → IsCollected (collect (fnodes ++ n.fnode ∷ []) grown ns))
        → (x : Result SegmentSet) → add_all set n.segments ≡ x
        → IsSound x
        → IsCollected (collect fnodes set (n ∷ ns))
    go q r more (ok grown) e h = rw (collect, q, r, e) (more grown h)
    go q r more (err c) e h = rw (collect, q, r, e) tt
    go q r more panics e h = absurd h

IsOrdered-Ahead :
    (s : Segment) (ss : SegmentSet) → IsOrdered (s ∷ ss) → Ahead s.first_seq_no (s ∷ ss)
IsOrdered-Ahead s [] o = o.0
IsOrdered-Ahead s (t ∷ ts) o = (o.0, o.1.0.after, IsOrdered-Ahead t ts o.2)

no_nodes-IsConsistent :
    (bound : ℕ) (m : Fsm) → m.live_nodes ≡ [] → m.links ≡ [] → IsConsistent bound m
unfolding lookup
no_nodes-IsConsistent bound m e f = record {
  linked = λ p g h. cc;
  indexed = λ g node p h k. cc;
  apart = λ p g h. cc;
  held = λ g node h. cc;
  below = λ g node h. cc;
}

none-Ahead : (n : ℕ) (ss : List Segment) → ss ≡ [] → Ahead n ss
none-Ahead n ss h = rw h tt

begin_at-IsPlayable :
    (m : Fsm) (set : SegmentSet)
    → m.live_nodes ≡ []
    → m.links ≡ []
    → m.hinted_segments ≡ []
    → IsOrdered set
    → IsPlayable (begin_at m set)
begin_at-IsPlayable m [] e f g o = record {
  consistent = no_nodes-IsConsistent m.next_seq_no m e f;
  ahead = none-Ahead m.next_seq_no m.hinted_segments g;
}
begin_at-IsPlayable m (s ∷ ss) e f g o = record {
  consistent = no_nodes-IsConsistent s.first_seq_no (begin_at m (s ∷ ss)) e f;
  ahead = IsOrdered-Ahead s ss o;
}

-- A machine fit to play, or an error; no panic.
abbrev pub IsFit : Loading Fsm → Type 0
IsFit (loaded m) = IsPlayable m
IsFit (failed e) = Unit
IsFit crashed = ⊥

-- From any hints there results an error or a playable machine, and never a panic.
pub new_fsm-IsFit : (hints : FsmHints) → IsFit (new_fsm hints)
unfolding new_fsm live_log_segments hinted_start
new_fsm-IsFit hints = elim (Bool-cases (no_name hints.log)) [
  | inl q ↦ rw (new_fsm, q) tt
  | inr q ↦ go q (live_log_segments hints) refl (collect-IsCollected [] [] hints.live_nodes tt)
]
  where
    go :
        no_name hints.log ≡ false
        → (x : Loading (List ℕ × SegmentSet)) → live_log_segments hints ≡ x
        → IsCollected x
        → IsFit (new_fsm hints)
    go q (loaded (fnodes, set)) e h =
        rw (new_fsm, q, e)
          (begin_at-IsPlayable (hinted_start hints.log fnodes hints.properties) set refl refl refl
            h)
    go q (failed c) e h = rw (new_fsm, q, e) tt
    go q crashed e h = absurd h
