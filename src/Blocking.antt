-- ===== src/Blocking.antt =====
-- src/blocking.rs: the loop of all blocking operations.
pub mod Defs
pub mod Map
pub mod Contract
pub mod Block
pub mod Deadline
mod Tests
