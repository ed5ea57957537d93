-- ===== src/Server.antt =====
-- The answers of reinforce_spec/server to errors, and its route for evaluations.
mod Errors
mod Specs
pub mod Reused
mod Examples
unfoldable pub use Errors.*
unfoldable pub use Specs.*
