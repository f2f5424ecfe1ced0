-- ===== src/Socket.antt =====
-- The socket layer and the jobs of the queue.
pub mod Handlers
pub mod Jobs
pub mod Positions
pub mod Arrival
pub mod Seats
pub mod Seating
pub mod Reachable
pub mod Lines
mod Tests
