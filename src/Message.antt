-- ===== src/Message.antt =====
-- The framing of messages (v2/pkg/message).
pub mod Reader
pub mod FixedFraming
pub mod Lines
mod Examples
