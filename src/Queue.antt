-- ===== src/Queue.antt =====
-- The waiting line of a concert.
pub mod Repository
pub mod Service
pub mod Line
pub mod Counting
pub mod Exclusive
pub mod Readers
pub mod Invariant
pub mod Reachable
pub mod Entry
pub mod Untouched
pub mod Admission
pub mod Grace
pub mod Effects
pub mod Booth
pub mod Depicts
pub mod Refinement
pub mod Runs
mod Tests
