-- ===== src/Selector.antt =====
-- `HybridSelector` of reinforce_spec/_internal/_selector.py.
mod Defs
mod Argmax
pub mod Best
pub mod Blending
mod Examples
unfoldable pub use Defs.*
