-- ===== src/Policy.antt =====
-- The policy lifecycle of reinforce_spec/_internal/_policy.py: identifiers, metadata, the registry
-- and the manager that promotes and rolls back.
pub mod Ids
mod Metadata
mod Defs
pub mod Registry
pub mod Invariant
pub mod Promotion
pub mod Rollback
pub mod Histories
pub mod Stale
pub mod Order
mod Examples
unfoldable pub use Defs.*
