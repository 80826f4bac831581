-- ===== src/Viability.antt =====
-- Whether a part is repaired or replaced.
pub mod Service
mod Tests
