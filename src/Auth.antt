-- ===== src/Auth.antt =====
-- src/auth.rs and src/config.rs: sessions by access tokens and refresh tokens, and the passwords.
pub mod Config
pub mod Store
pub mod Cookies
pub mod Extract
pub mod Dead
pub mod Stable
pub mod Keeps
pub mod Reject
pub mod Rotate
pub mod Headers
pub mod Accept
pub mod Toy
mod Tests
