-- ===== src/Auth.antt =====
-- Accounts: registration, sessions by a pair of tokens, and the guards of the routes.
pub mod Repository
pub mod Service
pub mod Middleware
pub mod Rotation
pub mod Emails
pub mod Sessions
pub mod Roles
pub mod Guards
mod Tests
