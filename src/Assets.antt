-- ===== src/Assets.antt =====
-- maintenance/models.py and maintenance/validators.py: the hierarchy of machines.
pub mod Tree
pub mod Walks
mod Tests
