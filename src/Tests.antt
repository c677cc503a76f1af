-- ===== src/Tests.antt =====
-- Concrete runs: a host on which everything goes well, a few states, and the theorems at them.
pub mod Data
mod Handlers
mod Times
mod Names
pub mod Links
pub mod Devices
mod Sync
mod Dns
mod Vpn
