-- ===== src/Lane.antt =====
-- src/mpsc/receiver/lane.rs: one sender's lane as the receiver keeps it.
pub mod Defs
pub mod Window
pub mod Settle
pub mod Poll
pub mod Take
mod Tests
