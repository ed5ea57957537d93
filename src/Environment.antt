-- ===== src/Environment.antt =====
-- `SpecSelectionEnv` of reinforce_spec/_internal/_environment.py, and its observations.
pub mod Features
mod Defs
pub mod Replay
mod Examples
unfoldable pub use Defs.*
