-- ===== src/Reservation.antt =====
-- Reservations and their payments.
pub mod Listing
pub mod Repository
pub mod Jobs
pub mod Service
pub mod Totals
pub mod Preemption
pub mod Books
pub mod Balance
pub mod Closing
pub mod Ending
pub mod Cancellation
pub mod Webhook
mod Tests
pub mod Settlement
pub mod Faults
pub mod Repeated
pub mod Renewal
pub mod Creation
pub mod Opening
pub mod Extension
pub mod Purchase
pub mod Expiry
pub mod Reachable
