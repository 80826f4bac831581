-- ===== src/Procurement.antt =====
-- procurement/models.py, procurement/services.py and procurement/views.py: purchase orders and their receipt.
pub mod Tables
pub mod Lines
pub mod Fulfil
pub mod Receipt
pub mod Orders
pub mod Creation
pub mod Requests
pub mod Shortages
pub mod Decisions
pub mod Steps
pub mod Decided
pub mod Books
pub mod Caps
pub mod Stocked
pub mod Delivered
pub mod History
pub mod Locked
mod Tests
