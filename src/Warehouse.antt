-- ===== src/Warehouse.antt =====
-- inventory/services.py: what enters and leaves the warehouse, and the requests for parts.
pub mod Tables
pub mod Moves
pub mod Direct
pub mod Emergency
pub mod Shortage
pub mod Issue
pub mod Requests
pub mod Approval
pub mod Keeps
pub mod Stocktaking
pub mod Conserved
pub mod Steps
pub mod Reconciled
pub mod History
pub mod Workflow
pub mod Lines
pub mod Progress
pub mod Followed
pub mod Once
pub mod Releases
pub mod Tests
