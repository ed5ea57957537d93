-- ===== src/Scoring.antt =====
-- `EnterpriseScorer` of reinforce_spec/_internal/_scorer.py, with the bias functions of _bias.py.
mod Weights
mod Judges
mod Trimming
mod Defs
mod Pointwise
pub mod Robust
mod Answers
mod Groups
pub mod Bounds
pub mod Ranking
pub mod Position
mod Examples
unfoldable pub use Weights.*
unfoldable pub use Judges.*
unfoldable pub use Trimming.*
unfoldable pub use Defs.*
unfoldable pub use Pointwise.*
