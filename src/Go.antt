-- ===== src/Go.antt =====
-- The parts of Go's standard library that the program's own code is built on.
pub mod Search
pub mod Map
