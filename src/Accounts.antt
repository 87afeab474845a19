-- ===== src/Accounts.antt =====
-- src/handlers/auth.rs: login, logout, the first user and the profile.
pub mod Replies
pub mod Login
pub mod Setup
pub mod Profile
pub mod Issued
pub mod LoggedIn
pub mod Sessions
pub mod Invalid
pub mod FirstUser
pub mod UpdateChecks
pub mod Updates
pub mod Stale
pub mod Keeps
pub mod World
pub mod Tests
pub mod SessionTests
pub mod LoggedOut
