-- ===== src/Services/Memory.antt =====
-- The interfaces in memory: that their laws can be met, and what the tests run on.
pub mod Assoc
pub mod Tables
pub mod Accounts
pub mod Keyed
pub mod Strings
pub mod Keyspace
