-- ===== src/Types.antt =====
-- Types of reinforce_spec/types.py that several parts share. Scores are natural numbers of one fixed
-- unit.
use reinforce_spec.Prelude.{ℕ, String, List}

pub data SpecFormat : Type 0 where
  text json yaml markdown other : SpecFormat

pub data SelectionMethod : Type 0 where
  hybrid scoring_only rl_only : SelectionMethod

pub data DegradationLevel : Type 0 where
  l0_full l1_reduced l2_fallback l3_emergency : DegradationLevel

-- A candidate with its scores; a dimension score is kept as the dimension and the score.
pub record CandidateSpec : Type 0 where
  pub index : ℕ
  pub content : String
  pub format : SpecFormat
  pub source_model : String
  pub dimension_scores : List (String × ℕ)
  pub composite_score : ℕ
