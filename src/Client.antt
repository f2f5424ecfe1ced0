-- ===== src/Client.antt =====
-- The client: requests that wait for a token, the queue hook, and the pages.
pub mod Api
pub mod Failures
pub mod Checkout
pub mod Requests
pub mod Waiting
mod Tests
mod CheckoutTests
mod AdminTests
pub mod QueueHook
pub mod Attempts
pub mod ConcertModal
pub mod AdminPage
pub mod ZoneModal
pub mod Navbar
pub mod Access
pub mod Login
pub mod Lists
pub mod Cancel
pub mod Support
pub mod Panel
mod PagesTests
