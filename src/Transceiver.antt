-- ===== src/Transceiver.antt =====
-- src/transceiver/mod.rs: the transceiver's task.
pub mod Writing
pub mod Notify
pub mod Ids
pub mod State
pub mod Sending
pub mod Process
pub mod Step
pub mod Shutdown
pub mod Spawn
pub mod Task
pub mod Disconnect
