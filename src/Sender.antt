-- ===== src/Sender.antt =====
-- src/mpsc/sender.rs: one sender of a channel.
pub mod Defs
pub mod Send
pub mod Deliver
pub mod Block
pub mod Keeps
mod Tests
