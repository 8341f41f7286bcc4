-- ===== src/Wait.antt =====
-- src/wait.rs: parking without a lost wakeup.
pub mod Cell
pub mod Wakeup
mod Tests
