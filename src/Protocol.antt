-- ===== src/Protocol.antt =====
-- The wire types of the broker protocol (v2/pkg/protocol).
pub mod Validator
pub mod Fragment
pub mod Label
mod Examples
