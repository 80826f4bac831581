-- ===== src/Preventive.antt =====
-- maintenance/preventive_engine: schedules of preventive maintenance and their occurrences.
pub mod Calendar
pub mod Tables
pub mod Scheduling
pub mod Occurrence
pub mod Assignment
pub mod Review
pub mod Steps
pub mod Advance
pub mod Occurrences
pub mod Singles
pub mod Generation
pub mod Counts
mod Tests
