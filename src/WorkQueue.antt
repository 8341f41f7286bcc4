-- ===== src/WorkQueue.antt =====
-- src/mpmc/work.rs: the queues of staged work between which receivers steal.
pub mod Defs
pub mod Steal
mod Tests
