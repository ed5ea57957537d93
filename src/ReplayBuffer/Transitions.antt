-- ===== src/ReplayBuffer/Transitions.antt =====
-- `Transition`: what the buffer of the client keeps. Rewards count in the unit of scores.
use reinforce_spec.Prelude.{ℕ, Bool, List, Option}

pub record Transition : Type 0 where
  pub observation : List ℕ
  pub action : ℕ
  pub reward : ℕ
  pub next_observation : List ℕ
  pub done : Bool
  pub candidate_rewards : Option (List ℕ)
