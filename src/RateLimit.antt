-- ===== src/RateLimit.antt =====
-- internal/adapter/http/ratelimit: throttling of login attempts.
pub mod Login
pub mod Tracker
mod Tests
