-- ===== src/Blockers.antt =====
-- The blockers of work orders.
pub mod Tables
pub mod Status
pub mod Service
pub mod Sync
pub mod Steps
pub mod Cases
pub mod Synced
pub mod Rows
pub mod Lifecycle
pub mod Keystone
mod Tests
