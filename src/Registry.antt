-- ===== src/Registry.antt =====
-- The lane registry of src/mpsc.rs: lane keys, ready pages and channel IDs.
pub mod Defs
pub mod Keys
pub mod Pages
mod Tests
