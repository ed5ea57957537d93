-- ===== src/Persistence.antt =====
-- `Storage` of reinforce_spec/_internal/_persistence.py.
mod Tables
mod Defs
pub mod Selections
pub mod Writes
pub mod Requests
pub mod Keys
mod Examples
unfoldable pub use Defs.*
