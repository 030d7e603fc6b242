-- ===== src/Protocol.antt =====
-- The package `protocol` (Protocol/): data, connection, session and state machine of a transfer.
pub mod State
pub mod Types
pub mod Stream
pub mod File
pub mod Session
pub mod Fsm
pub mod Progress
pub mod Reached
pub mod Paths
