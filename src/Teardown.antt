-- ===== src/Teardown.antt =====
-- src/ring.rs: who destroys the values that nobody reads when a channel closes.
pub mod Discard
pub mod Handoff
pub mod Clean
pub mod Safe
mod Tests
