-- ===== src/RecoveryLog.antt =====
-- The recovery log of a consumer's local files (v2/pkg/recoverylog).
pub mod Segment
pub mod Fsm
pub mod Hints
pub mod Recorder
mod RecorderExamples
pub mod Copy
pub mod Player
pub mod Replay
mod PlayerExamples
mod Examples
