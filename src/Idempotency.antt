-- ===== src/Idempotency.antt =====
-- `IdempotencyStore` of reinforce_spec/_internal/_idempotency.py over its in-memory backend, and
-- `IdempotencyMiddleware` of reinforce_spec/server/middleware/idempotency.py around it.
mod Defs
mod Middleware
pub mod AtMostOnce
pub mod Keeping
pub mod Replay
mod Examples
unfoldable pub use Defs.*
unfoldable pub use Middleware.*
