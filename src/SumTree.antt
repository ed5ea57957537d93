-- ===== src/SumTree.antt =====
-- `SumTree` of reinforce_spec/_internal/_replay_buffer.py. Priorities are natural numbers of one
-- fixed unit, so that sums are exact; a change may be negative and is added before it is taken off.
mod Defs
pub mod Climb
pub mod Total
pub mod Walk
pub mod Invariant
pub mod Sampling
pub mod Ring
mod Examples
unfoldable pub use Defs.*
