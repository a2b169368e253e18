-- ===== src/Broker.antt =====
-- The broker of journals (v2/pkg/broker).
pub mod Pipeline
pub mod Replicate
mod Examples
