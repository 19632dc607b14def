-- ===== src/Identity.antt =====
-- Accounts and the login methods bound to them (apps/canvas-api/src/identity).
pub mod Methods
pub mod Accounts
pub mod Merge
pub mod Service
pub mod Logins
pub mod Forced
pub mod Runs
pub mod Powers
pub mod Tests
