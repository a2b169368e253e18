-- ===== src/Allocator.antt =====
-- The allocator of items to members (v2/pkg/allocator).
pub mod ItemState
mod Examples
