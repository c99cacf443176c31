-- ===== src/Accounts.antt =====
-- Who may sign in: backend/src/modules/auth/auth.service.ts.
pub mod Rows
pub mod Sessions
pub mod Reset
pub mod Passwords
pub mod Changed
pub mod Rotation
pub mod Ended
pub mod Links
pub mod Spent
pub mod Calls
