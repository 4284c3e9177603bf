-- ===== src/Runtime.antt =====
-- What the controller takes from Go's runtime: buffered channels and timers.
pub mod Channel
pub mod Timers
pub mod Growth
pub mod Armed
