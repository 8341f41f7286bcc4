-- ===== src/Yring.antt =====
-- yring/src: the bounded single-producer single-consumer ring.
pub mod Types
pub mod Waiter
pub mod Ring
pub mod Producer
pub mod Owner
pub mod Consumer
pub mod Queue
pub mod Slots
pub mod Sim
pub mod New
pub mod Run
mod OwnerTests
mod Tests
