-- ===== src/Accounts.antt =====
-- Users and their capabilities.
pub mod Capabilities
pub mod Matrix
mod Tests
