-- ===== src/Auth.antt =====
-- Accounts, sessions and the registration limiter (apps/api/app/auth).
pub mod Rows
pub mod Security
pub mod Service
pub mod Limiter
pub mod Window
pub mod Sessions
pub mod Login
mod Tests
