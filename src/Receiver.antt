-- ===== src/Receiver.antt =====
-- src/mpsc/receiver.rs and its children: the receiver of a channel.
pub mod Index
pub mod Defs
pub mod Collect
pub mod Receive
pub mod Control
pub mod Rotation
pub mod Adopt
pub mod Sound
pub mod Kept
pub mod Weight
pub mod Gather
pub mod Round
pub mod Progress
pub mod Popped
pub mod Serve
pub mod Slots
pub mod Fair
pub mod Controlled
pub mod Targeted
pub mod Run
pub mod Returns
pub mod Turn
mod Tests
pub mod Retain
pub mod Register
pub mod Senders
pub mod Waiting
