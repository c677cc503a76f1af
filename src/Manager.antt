-- ===== src/Manager.antt =====
-- network_manager/mod.rs: the root object of the service.
pub mod Links
pub mod Activation
pub mod Checkpoints
pub mod Consistent
pub mod Outside
pub mod Rollback
pub mod Activated
pub mod Cleared
pub mod Deadlines
pub mod Deactivated
