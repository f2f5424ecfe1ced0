-- ===== src/Post.antt =====
-- Inquiries of users and their replies.
pub mod Repository
pub mod Service
pub mod Consistent
pub mod Replies
mod Tests
