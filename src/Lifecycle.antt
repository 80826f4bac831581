-- ===== src/Lifecycle.antt =====
-- maintenance/services.py: the lifecycle of a work order, with what its transitions set off.
pub mod Tables
pub mod Service
pub mod Technician
pub mod Start
pub mod Archive
pub mod Steps
pub mod Stages
pub mod Routes
pub mod Pauses
pub mod Travel
pub mod Closure
mod Tests
