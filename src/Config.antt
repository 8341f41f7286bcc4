-- ===== src/Config.antt =====
-- src/config.rs: capacity validation and the spin phase of blocking operations.
pub mod Defs
pub mod Capacity
pub mod Spin
mod Tests
