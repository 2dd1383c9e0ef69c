-- ===== src/Auth.antt =====
-- internal/auth: login throttling and sessions.
pub mod Limiter
pub mod Session
pub mod Admin
mod Tests
