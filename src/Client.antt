-- ===== src/Client.antt =====
-- `ReinforceSpec` of reinforce_spec/client.py: the selection of a candidate and what it records.
mod Defs
pub mod Ranked
pub mod Records
pub mod Repeated
mod Saving
pub mod Succeeds
pub mod Training
pub mod Trained
mod Examples
unfoldable pub use Defs.*
