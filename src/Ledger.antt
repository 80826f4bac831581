-- ===== src/Ledger.antt =====
-- The cost ledger of work orders.
pub mod Tables
pub mod Service
pub mod Net
pub mod Steps
pub mod Cache
mod Tests
