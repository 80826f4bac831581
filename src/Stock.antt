-- ===== src/Stock.antt =====
-- inventory/models.py, inventory/services.py and inventory/services_allocation.py: parts, stock and
-- the reservations of it.
pub mod Tables
pub mod Depot
pub mod Reservations
pub mod Sums
pub mod Cover
pub mod Release
pub mod Queue
mod Tests
