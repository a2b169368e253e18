-- ===== src/Fragment.antt =====
-- The brokers' view of a journal's fragments (v2/pkg/fragment).
pub mod Types
pub mod CoverSet
pub mod Index
pub mod Spool
mod Examples
mod SpoolExamples
