-- ===== src/Health.antt =====
-- The health card of a work order.
pub mod Card
pub mod Risk
mod Tests
