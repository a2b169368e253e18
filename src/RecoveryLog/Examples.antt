-- ===== src/RecoveryLog/Examples.antt =====
-- The theorems on segments, hints and the machine at concrete states.
use mathlib.Core.Path.{subst}
use gazette.Prelude.{
  ℕ, ◌+◌, ◌≡◌, ◌⊎◌, ◌<◌, refl, true, false, none, some, [], ◌∷◌, arith, Bytes, length,
}
use gazette.Go.Search.{search_index}
use gazette.Go.Map.{insert, bytes_key, nat_key}
use gazette.RecoveryLog.Segment.{
  intersect, Segment, SegmentSet, ok, validate, reduce_segment, reduce_following, insert_at, add_at,
  add,
}
use gazette.RecoveryLog.Segment.Loop.{IsOrdered}
use gazette.RecoveryLog.Segment.Adding.{IsSound}
use gazette.RecoveryLog.Segment.Placing.{add-IsSound}
use gazette.RecoveryLog.Segment.Overlap.{intersect-filter}
use gazette.RecoveryLog.Fsm.{
  Fsm, RecordedOp, FsmHints, fnode_not_tracked, is_applied, other_author, step_next, apply,
}
use gazette.RecoveryLog.Fsm.Apply.{IsPlayable, apply-IsPlayable, apply-transition}
use gazette.RecoveryLog.Hints.{
  loaded, flatten, add_all, collect, live_log_segments, hinted_start, new_fsm,
}
use gazette.RecoveryLog.Hints.Start.{IsFit, new_fsm-IsFit}

abbrev seg : ℕ → ℕ → ℕ → ℕ → Segment
seg first last from to = record {
  author = 100;
  first_seq_no = first;
  first_offset = from;
  first_checksum = first + 1000;
  last_seq_no = last;
  last_offset = to;
}

abbrev played : SegmentSet
played = seg 4 6 10 20 ∷ seg 9 10 30 40 ∷ []

played-IsOrdered : IsOrdered played
played-IsOrdered = (
  omega arith,
  (record { after = omega arith; first_offsets = omega arith; last_offsets = ground arith }, tt),
  (omega arith, tt, tt),
)

-- The segment joins the two around it.
add_runs : add played (seg 7 9 25 36) ≡ ok (seg 4 10 10 40 ∷ [])
unfolding add add_at insert_at reduce_following reduce_segment validate search_index
add_runs = refl

add-IsSound_example : IsSound (add played (seg 7 9 25 36))
add-IsSound_example = add-IsSound played (seg 7 9 25 36) played-IsOrdered

intersect-filter_example : intersect played 15 30 ≡ some (seg 4 6 10 20 ∷ [])
intersect-filter_example = intersect-filter played 15 30 played-IsOrdered (omega arith)

abbrev hints : FsmHints
hints = record {
  log = 108 ∷ [];
  live_nodes = record { fnode = 4; segments = played } ∷ [];
  properties = (112 ∷ [], 1 ∷ []) ∷ [];
}

abbrev start : Fsm
start = record {
  log = 108 ∷ [];
  next_seq_no = 4;
  next_checksum = 1004;
  properties = (112 ∷ [], 1 ∷ []) ∷ [];
  live_nodes = [];
  links = [];
  hinted_segments = played;
  hinted_fnodes = 4 ∷ [];
}

new_fsm_runs : new_fsm hints ≡ loaded start
unfolding new_fsm live_log_segments collect add_all add add_at insert_at reduce_following
    reduce_segment validate search_index hinted_start flatten insert
new_fsm_runs = refl

new_fsm-IsFit_example : IsFit (new_fsm hints)
new_fsm-IsFit_example = new_fsm-IsFit hints

start-IsPlayable : IsPlayable start
start-IsPlayable = subst IsFit new_fsm_runs (new_fsm-IsFit hints)

abbrev create : RecordedOp
create = record {
  seq_no = 4;
  checksum = 1004;
  author = 100;
  first_offset = 10;
  last_offset = 12;
  create = some (102 ∷ []);
  link = none;
  unlink = none;
  write = none;
  property = none;
}

abbrev crc : ℕ → Bytes → ℕ
crc sum frame = sum + length frame

apply-IsPlayable_example : IsPlayable (apply crc start create (1 ∷ [])).0
apply-IsPlayable_example = apply-IsPlayable crc start create (1 ∷ []) start-IsPlayable

apply-transition_example :
    ((is_applied (apply crc start create (1 ∷ [])).1 ≡ false)
      × ((apply crc start create (1 ∷ [])).0 ≡ start))
    ⊎ ((is_applied (apply crc start create (1 ∷ [])).1 ≡ true)
        × (other_author played 100 ≡ false)
        × (create.seq_no ≡ start.next_seq_no)
        × (create.checksum ≡ start.next_checksum)
        × (4 < (apply crc start create (1 ∷ [])).0.next_seq_no)
        × ((apply crc start create (1 ∷ [])).1 ≡ some fnode_not_tracked
            → (apply crc start create (1 ∷ [])).0 ≡ step_next crc start (1 ∷ [])))
apply-transition_example = apply-transition crc start create (1 ∷ []) start-IsPlayable
