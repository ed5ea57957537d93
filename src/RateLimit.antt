-- ===== src/RateLimit.antt =====
-- `RateLimitMiddleware` of reinforce_spec/server/middleware/rate_limit.py.
mod Defs
pub mod Windows
pub mod Sliding
mod Examples
unfoldable pub use Defs.*
