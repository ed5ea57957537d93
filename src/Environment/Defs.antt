-- ===== src/Environment/Defs.antt =====
-- A feedback signal counts in a unit of its own, and `feedback_reward_scale` gives the scores that
-- one of it stands for. The entries of `info` are those of the state and the answer.
use reinforce_spec.Prelude.{
  ℕ, ◌+◌, ◌*◌, ◌%◌, max, List, [], ◌∷◌, Option, none, some, map, length, take, replicate, get_elem?,
}
use reinforce_spec.Prelude.Integers.{ℤ, ◌+ℤ◌, scale_ℤ}
use reinforce_spec.Types.{CandidateSpec}
use reinforce_spec.ReplayBuffer.Transitions.{Transition}
use reinforce_spec.Environment.Features.{build_observation, per_candidate_features}

-- One stored transition: observation, reward, and the reward of each action.
abbrev pub Stored : Type 0
Stored = List ℕ × ℕ × List ℕ

pub record SpecSelectionEnv : Type 0 where
  pub one : ℕ
  pub max_candidates : ℕ
  pub feedback_reward_scale : ℕ
  pub candidates : List CandidateSpec
  pub current_obs : List ℕ
  pub step_count : ℕ
  pub episode_count : ℕ
  pub total_reward : ℤ
  pub feedback_signal : Option ℤ
  pub replay_queue : Option (List Stored)
  pub replay_idx : ℕ
  pub replay_candidate_rewards : List ℕ

unfoldable pub init : ℕ → ℕ → ℕ → SpecSelectionEnv
init one n_candidates scale = record {
  one = one;
  max_candidates = n_candidates;
  feedback_reward_scale = scale;
  candidates = [];
  current_obs = replicate (n_candidates * per_candidate_features) 0;
  step_count = 0;
  episode_count = 0;
  total_reward = ℤ.pos 0;
  feedback_signal = none;
  replay_queue = none;
  replay_idx = 0;
  replay_candidate_rewards = replicate n_candidates 0;
}

unfoldable pub set_candidates : List CandidateSpec → SpecSelectionEnv → SpecSelectionEnv
set_candidates candidates e = record e {
  candidates = take e.max_candidates candidates;
  current_obs = build_observation e.one (take e.max_candidates candidates) e.max_candidates;
}

unfoldable pub set_feedback_signal : ℤ → SpecSelectionEnv → SpecSelectionEnv
set_feedback_signal signal e = record e { feedback_signal = some signal }

-- The rewards of the actions: a transition without them gives every action its own reward.
abbrev pub rewards_of : ℕ → Option (List ℕ) → ℕ → List ℕ
rewards_of max_candidates (some rewards) reward = rewards
rewards_of max_candidates none reward = replicate max_candidates reward

abbrev pub stored : ℕ → Transition → Stored
stored max_candidates t =
    (t.observation, t.reward, rewards_of max_candidates t.candidate_rewards t.reward)

unfoldable pub load_transitions : List Transition → SpecSelectionEnv → SpecSelectionEnv
load_transitions transitions e = record e {
  replay_queue = some (map (stored e.max_candidates) transitions);
  replay_idx = 0;
}

unfoldable pub clear_replay : SpecSelectionEnv → SpecSelectionEnv
clear_replay e = record e { replay_queue = none; replay_idx = 0 }

-- The stored transition that a reset serves.
abbrev pub serve : Option Stored → SpecSelectionEnv → SpecSelectionEnv
serve none e = e
serve (some (obs, reward, rewards)) e = record e {
  replay_idx = e.replay_idx + 1;
  current_obs = obs;
  replay_candidate_rewards = rewards;
}

abbrev pub next_stored : Option (List Stored) → ℕ → Option Stored
next_stored none i = none
next_stored (some []) i = none
next_stored (some (s ∷ queue)) i = get_elem? (s ∷ queue) (i % length (s ∷ queue))

unfoldable pub reset : SpecSelectionEnv → List ℕ × SpecSelectionEnv
reset e =
    let fresh = record e {
      step_count = 0;
      total_reward = ℤ.pos 0;
      feedback_signal = none;
      episode_count = e.episode_count + 1;
    } in
    let served = serve (next_stored e.replay_queue e.replay_idx) fresh in
    (served.current_obs, served)

-- The shaped reward.
abbrev pub shaped : ℕ → Option ℤ → ℕ → ℤ
shaped scale none base_reward = ℤ.pos base_reward
shaped scale (some signal) base_reward = ℤ.pos base_reward +ℤ scale_ℤ scale signal

abbrev pub composite_of : Option CandidateSpec → ℕ
composite_of none = 0
composite_of (some selected) = selected.composite_score

-- The base reward of an action, none for the IndexError of an array that is too short.
unfoldable pub base_reward : ℕ → SpecSelectionEnv → Option ℕ
base_reward action e = elim e.replay_queue [
  | some (s ∷ queue) ↦ get_elem? e.replay_candidate_rewards (action % e.max_candidates)
  | _ ↦ some (composite_of (get_elem? e.candidates (action % max (length e.candidates) 1)))
]

-- The observation and the reward; every episode ends with its first step.
abbrev pub stepped : Option ℕ → SpecSelectionEnv → Option (List ℕ × ℤ) × SpecSelectionEnv
stepped none e = (none, e)
stepped (some base) e =
    let reward = shaped e.feedback_reward_scale e.feedback_signal base in
    (
      some (e.current_obs, reward),
      record e { feedback_signal = none; total_reward = e.total_reward +ℤ reward },
    )

unfoldable pub step : ℕ → SpecSelectionEnv → Option (List ℕ × ℤ) × SpecSelectionEnv
unfolding base_reward
step action e =
    let e' = record e { step_count = e.step_count + 1 } in stepped (base_reward action e') e'
