-- ===== src/ReplayBuffer.antt =====
-- `PrioritizedReplayBuffer` of reinforce_spec/_internal/_replay_buffer.py, over the sum tree.
mod Defs
pub mod Transitions
pub mod Invariant
pub mod Learning
mod Examples
unfoldable pub use Defs.*
