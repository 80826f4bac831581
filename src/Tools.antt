-- ===== src/Tools.antt =====
-- The reusable-tool pool.
pub mod Tables
pub mod Service
pub mod Steps
pub mod Checkout
pub mod Retirement
pub mod Issue
pub mod Outcomes
mod Tests
