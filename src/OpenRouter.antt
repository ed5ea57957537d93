-- ===== src/OpenRouter.antt =====
-- `OpenRouterClient` of reinforce_spec/_internal/_client.py over the circuit breaker. The SDK's
-- answers and the clock readings of a call are its environment; tenacity is a parameter.
mod Defs
mod Fallbacks
pub mod Retrying
pub mod Sparing
pub mod Outcomes
pub mod Fallback
mod Examples
unfoldable pub use Defs.*
unfoldable pub use Fallbacks.*
