-- ===== src/RecoveryLog/Replay.antt =====
-- What a recorder (v2/pkg/recoverylog/recorder.go) and a player (v2/pkg/recoverylog/playback.go) of
-- its log have in common: a machine without the offsets of its segments.
pub mod Bare
pub mod Step
pub mod Frames
use gazette.Prelude.{ℕ, ◌≡◌, Option, List, [], ◌∷◌}
use gazette.Go.Map.{Map}
use gazette.RecoveryLog.Fsm.{FnodeState, Fsm, RecordedOp, Outcome}

abbrev pub bare_node : FnodeState → FnodeState
bare_node node = record node { segments = [] }

abbrev pub bare_nodes : Map ℕ FnodeState → Map ℕ FnodeState
bare_nodes [] = []
bare_nodes ((f, node) ∷ ns) = (f, bare_node node) ∷ bare_nodes ns

abbrev pub bare : Fsm → Fsm
bare m = record m { live_nodes = bare_nodes m.live_nodes }

abbrev pub bared : Outcome → Outcome
bared (m, e) = (bare m, e)

-- The operation as it is written, without its offsets.
abbrev pub plain : RecordedOp → RecordedOp
plain op = record op { first_offset = 0; last_offset = 0 }

-- The machines differ at most in the segments of their live nodes.
abbrev pub Alike : Fsm → Fsm → Type 0
Alike m n = bare m ≡ bare n
