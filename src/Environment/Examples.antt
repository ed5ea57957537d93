-- ===== src/Environment/Examples.antt =====
-- Two stored transitions, the second one without rewards of its actions.
use reinforce_spec.Prelude.{ℕ, ◌≡◌, true, List, [], ◌∷◌, Option, some, none, get_elem?, arith}
use reinforce_spec.Prelude.Integers.{ℤ}
use reinforce_spec.ReplayBuffer.Transitions.{Transition}
use reinforce_spec.Environment.Defs.{SpecSelectionEnv, init, load_transitions}
use reinforce_spec.Environment.Replay.{episodes, replay-Shows}

abbrev env : SpecSelectionEnv
unfolding init
env = init 10 2 5

abbrev transition : ℕ → Option (List ℕ) → Transition
transition seen rewards = record {
  observation = seen ∷ [];
  action = 0;
  reward = 30;
  next_observation = seen ∷ [];
  done = true;
  candidate_rewards = rewards;
}

abbrev batch : List Transition
batch = transition 1 (some (40 ∷ 20 ∷ [])) ∷ transition 2 none ∷ []

abbrev script : List (Option ℤ × ℕ)
script = (some (ℤ.negsuc 1), 0) ∷ (none, 7) ∷ (some (ℤ.pos 2), 1) ∷ []

replay-Shows_example :
    get_elem? (episodes script (load_transitions batch env)) 2
    ≡ some (1 ∷ [], some (1 ∷ [], ℤ.pos 20))
unfolding env
replay-Shows_example =
    replay-Shows (transition 1 (some (40 ∷ 20 ∷ []))) (transition 2 none ∷ []) script env 2
      (omega arith) (omega arith, (omega arith, tt)) (omega arith)
