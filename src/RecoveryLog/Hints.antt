-- ===== src/RecoveryLog/Hints.antt =====
-- Hints and the machine made of them: LiveLogSegments and NewFSM of v2/pkg/recoverylog/fsm.go.
pub mod Start
use gazette.Prelude.{
  ℕ, zero, suc, Bool, true, false, ◌&&◌, ◌||◌, not, Option, none, some, List, [], ◌∷◌, ◌++◌, ltb,
  leb, ◌==◌, if◌then◌else◌, Bytes,
}
use gazette.Go.Map.{Map, bytes_key, insert}
use gazette.RecoveryLog.Segment.{Segment, SegmentSet, Error, Result, ok, err, panics, add}
use gazette.RecoveryLog.Fsm.{Fsm, FnodeSegments, FsmHints}

pub data HintError : Type 0 where
  log_not_provided fnode_not_matched fnode_order : HintError
  segment_error : Error → HintError

-- A value, an error, or a panic.
pub data Loading {ℓ} (A : Type ℓ) : Type ℓ where
  loaded : A → Loading A
  failed : HintError → Loading A
  crashed : Loading A

-- The inner loop, up to the first error.
unfoldable pub add_all : SegmentSet → List Segment → Result SegmentSet
add_all set [] = ok set
add_all set (s ∷ ss) = elim (add set s) [
  | ok grown ↦ add_all grown ss
  | err e ↦ err e
  | panics ↦ panics
]

abbrev pub starts_at : List Segment → ℕ → Bool
starts_at [] fnode = false
starts_at (s ∷ ss) fnode = s.first_seq_no == fnode

-- The Fnode collected last is not below the next one.
abbrev pub out_of_turn : List ℕ → ℕ → Bool
out_of_turn [] fnode = false
out_of_turn (f ∷ []) fnode = leb fnode f
out_of_turn (f ∷ g ∷ fs) fnode = out_of_turn (g ∷ fs) fnode

-- The outer loop, with the Fnodes and the set so far.
unfoldable pub collect : List ℕ → SegmentSet → List FnodeSegments → Loading (List ℕ × SegmentSet)
unfolding add_all
collect fnodes set [] = loaded (fnodes, set)
collect fnodes set (n ∷ ns) = elim (starts_at n.segments n.fnode) [
  | false ↦ failed fnode_not_matched
  | true ↦ elim (out_of_turn fnodes n.fnode) [
    | true ↦ failed fnode_order
    | false ↦ elim (add_all set n.segments) [
      | ok grown ↦ collect (fnodes ++ n.fnode ∷ []) grown ns
      | err e ↦ failed (segment_error e)
      | panics ↦ crashed
    ]
  ]
]

unfoldable pub live_log_segments : FsmHints → Loading (List ℕ × SegmentSet)
unfolding collect
live_log_segments hints = collect [] [] hints.live_nodes

unfoldable pub flatten : List (Bytes × Bytes) → Map Bytes Bytes → Map Bytes Bytes
flatten [] held = held
flatten ((path, content) ∷ ps) held = flatten ps (insert path content held)

-- The machine at the first segment, or at the beginning of the log if there is none.
abbrev pub begin_at : Fsm → SegmentSet → Fsm
begin_at m [] = m
begin_at m (s ∷ ss) = record m {
  next_seq_no = s.first_seq_no;
  next_checksum = s.first_checksum;
  hinted_segments = s ∷ ss;
}

unfoldable pub hinted_start : Bytes → List ℕ → List (Bytes × Bytes) → Fsm
unfolding flatten
hinted_start log fnodes properties = record {
  log = log;
  next_seq_no = 1;
  next_checksum = 0;
  properties = flatten properties [];
  live_nodes = [];
  links = [];
  hinted_segments = [];
  hinted_fnodes = fnodes;
}

abbrev pub no_name : Bytes → Bool
no_name [] = true
no_name (b ∷ bs) = false

unfoldable pub new_fsm : FsmHints → Loading Fsm
unfolding live_log_segments hinted_start
new_fsm hints = elim (no_name hints.log) [
  | true ↦ failed log_not_provided
  | false ↦ elim (live_log_segments hints) [
    | loaded (fnodes, set) ↦ loaded (begin_at (hinted_start hints.log fnodes hints.properties) set)
    | failed e ↦ failed e
    | crashed ↦ crashed
  ]
]
