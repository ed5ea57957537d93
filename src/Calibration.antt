-- ===== src/Calibration.antt =====
-- `ScoreCalibrator` of reinforce_spec/_internal/_calibration.py.
mod Defs
pub mod Anchors
mod Examples
unfoldable pub use Defs.*
