-- ===== src/Runtime.antt =====
-- runtime.rs
pub mod State
pub mod Connections
pub mod Active
pub mod Devices
pub mod Settings
pub mod Checkpoints
pub mod Invariant
pub mod Kept
pub mod Restore
pub mod Fresh
pub mod Dropping
