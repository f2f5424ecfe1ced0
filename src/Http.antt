-- ===== src/Http.antt =====
-- The HTTP side: responses, controllers and routes.
pub mod Response
pub mod Controllers
pub mod Routes
pub mod Refusals
mod Tests
