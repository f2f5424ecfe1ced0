-- ===== src/Services.antt =====
-- The stores that the program calls and does not implement, as interfaces.
pub mod Redis
pub mod Table
pub mod Accounts
pub mod JobQueue
pub mod Memory
