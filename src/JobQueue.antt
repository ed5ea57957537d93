-- ===== src/JobQueue.antt =====
-- `JobQueue` of reinforce_spec/_internal/_queue.py.
mod Defs
mod Objects
mod Tasks
mod Runs
mod Kept
pub mod Order
mod Bounded
pub mod Limit
mod Examples
unfoldable pub use Defs.*
