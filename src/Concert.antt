-- ===== src/Concert.antt =====
-- Concerts and their zones.
pub mod Repository
pub mod Service
pub mod Zones
pub mod Removal
pub mod Stocking
pub mod Sale
mod Tests
