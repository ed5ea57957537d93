-- ===== src/Client/Training.antt =====
-- `train_policy` of reinforce_spec/client.py and `train_on_batch` of
-- reinforce_spec/_internal/_policy.py. The manager stands beside the rest of the client's state.
-- `learn` is PPO.learn on the environment of the policy. A policy that the manager has loaded has an
-- environment of its own, `env`; the first policy is made with the one of the client. `draw` gives the
-- values that the replay buffer samples, and `predictor` the predictions of a policy.
use reinforce_spec.Prelude.{
  ℕ, zero, suc, ◌+◌, Bool, true, false, List, [], ◌∷◌, Option, none, some, length, min, max, leb,
  if◌then◌else◌,
}
use reinforce_spec.ReplayBuffer
use reinforce_spec.ReplayBuffer.{Buffer, Batch}
use reinforce_spec.ReplayBuffer.Transitions.{Transition}
use reinforce_spec.Environment.{SpecSelectionEnv, load_transitions, clear_replay}
use reinforce_spec.Policy.{
  PolicyMetadata, PpoPolicy, Library, Manager, Result, ok, raise, Error, create_policy, promote,
  get_production_policy, save_checkpoint, list_policies, is_production,
}
use reinforce_spec.Selector
use reinforce_spec.Client.Defs.{Client}

-- What PPO.learn leaves: whether it has completed, the weights, and the environment.
pub record Learned {ℓ} (W : Type ℓ) : Type ℓ where
  pub completed : Bool
  pub weights : W
  pub env : SpecSelectionEnv

pub record Trainer {ℓ} (W : Type ℓ) : Type ℓ where
  pub library : Library W
  pub learn : W → SpecSelectionEnv → ℕ → Learned W
  pub predictor : PpoPolicy W → Selector.PpoPolicy
  pub env : SpecSelectionEnv
  pub draw : ℕ → ℕ
  pub batch_size : ℕ
  pub ppo_batch_size : ℕ

pub data Training : Type 0 where
  insufficient_data empty_buffer trained training_failed division_failed : Training
  manager_failed : Error → Training

-- `a or b` of an optional number.
abbrev pub or_else : Option ℕ → ℕ → ℕ
or_else none n = n
or_else (some zero) n = n
or_else (some (suc k)) n = suc k

module _ {ℓ} {W : Type ℓ} (t : Trainer W) where
  -- The policy after `learn`, with whether it has completed. The steps count only then.
  abbrev pub after_learn : PpoPolicy W → ℕ → Learned W → (Bool × PpoPolicy W) × SpecSelectionEnv
  after_learn policy steps learned =
      let train_steps =
        if learned.completed then policy.train_steps + steps else policy.train_steps in
      (
        (learned.completed, record { weights = learned.weights; train_steps = train_steps }),
        clear_replay learned.env,
      )

  unfoldable pub train_on_batch :
      List Transition
      → Option ℕ
      → PpoPolicy W
      → SpecSelectionEnv
      → (Bool × PpoPolicy W) × SpecSelectionEnv
  train_on_batch [] total_timesteps policy env = ((true, policy), env)
  train_on_batch (first ∷ rest) total_timesteps policy env =
      let steps = or_else total_timesteps (max (length (first ∷ rest)) t.ppo_batch_size) in
      after_learn policy steps (t.learn policy.weights (load_transitions (first ∷ rest) env) steps)

  -- The policy to train, and whether it is the object that the manager keeps loaded.
  abbrev pub Chosen : Type ℓ
  Chosen = PpoPolicy W × Bool

  -- The first policy: its promotion to production loads another object.
  abbrev pub after_promotions :
      PpoPolicy W → Result PolicyMetadata × Manager W → Result Chosen × Manager W
  after_promotions policy (ok _, m) = (ok (policy, false), m)
  after_promotions policy (raise e, m) = (raise e, m)

  abbrev pub promote_after :
      ℕ → PolicyMetadata → Result PolicyMetadata × Manager W → Result PolicyMetadata × Manager W
  promote_after now meta (ok _, m) = promote now meta.id m
  promote_after now meta (raise e, m) = (raise e, m)

  unfoldable pub first_policy : ℕ → Manager W → Result Chosen × Manager W
  first_policy now m =
      let ((policy, meta), created) = create_policy t.library now none m in
      after_promotions policy
        (promote_after now meta (promote_after now meta (promote now meta.id created)))

  -- Get or create a policy.
  abbrev pub policy_or_first :
      ℕ → Result (Option (PpoPolicy W)) × Manager W → Result Chosen × Manager W
  policy_or_first now (raise e, m) = (raise e, m)
  policy_or_first now (ok none, m) = first_policy now m
  policy_or_first now (ok (some policy), m) = (ok (policy, true), m)

  abbrev pub env_of : Bool → Client → SpecSelectionEnv
  env_of true c = t.env
  env_of false c = c.env

  abbrev pub with_env : Bool → SpecSelectionEnv → Client → Client
  with_env true env c = c
  with_env false env c = record c { env = env }

  -- Training changes the loaded object.
  abbrev pub with_loaded : Bool → PpoPolicy W → Manager W → Manager W
  with_loaded true policy m = record m { active_policy = some policy }
  with_loaded false policy m = m

  -- The first policy of `list_policies` that is in production.
  abbrev pub first_production : List PolicyMetadata → Option PolicyMetadata
  first_production [] = none
  first_production (meta ∷ rest) =
      if is_production meta.stage then some meta else first_production rest

  abbrev pub checkpoint_production :
      PpoPolicy W → Option PolicyMetadata → Manager W → Result (Unit {0}) × Manager W
  checkpoint_production policy none m = (ok tt, m)
  checkpoint_production policy (some meta) m = save_checkpoint t.library meta.id policy m

  -- The selector asks the trained policy from now on.
  abbrev pub after_checkpoint :
      PpoPolicy W → Client → Result (Unit {0}) × Manager W → Training × Manager W × Client
  after_checkpoint policy c (raise e, m) = (Training.manager_failed e, m, c)
  after_checkpoint policy c (ok _, m) = (
    Training.trained,
    m,
    record c { selector = record c.selector { policy = some (t.predictor policy) } },
  )

  abbrev pub after_training :
      Bool
      → (Bool × PpoPolicy W) × SpecSelectionEnv
      → Manager W
      → Client
      → Training × Manager W × Client
  after_training loaded ((false, policy), env) m c =
      (Training.training_failed, with_loaded loaded policy m, with_env loaded env c)
  after_training loaded ((true, policy), env) m c =
      let m1 = with_loaded loaded policy m in
      let meta = first_production (list_policies m1.registry none) in
      after_checkpoint policy (with_env loaded env c) (checkpoint_production policy meta m1)

  abbrev pub train_chosen :
      List Transition → ℕ → Result Chosen × Manager W → Client → Training × Manager W × Client
  train_chosen transitions steps (raise e, m) c = (Training.manager_failed e, m, c)
  train_chosen transitions steps (ok (policy, loaded), m) c =
      after_training loaded (train_on_batch transitions (some steps) policy (env_of loaded c)) m c

  abbrev pub train_sampled :
      ℕ → ℕ → List Transition → Manager W → Client → Training × Manager W × Client
  train_sampled now steps [] m c = (Training.empty_buffer, m, c)
  train_sampled now steps (first ∷ rest) m c =
      train_chosen (first ∷ rest) steps (policy_or_first now (get_production_policy m)) c

  -- A sample that raises a ZeroDivisionError ends the call.
  abbrev pub train_drawn :
      ℕ → ℕ → Option (Batch Transition) → Manager W → Client → Training × Manager W × Client
  train_drawn now steps none m c = (Training.division_failed, m, c)
  train_drawn now steps (some (transitions, indices)) m c = train_sampled now steps transitions m c

  unfoldable pub train_policy : ℕ → Option ℕ → Manager W → Client → Training × Manager W × Client
  unfolding train_on_batch first_policy
  train_policy now n_steps m c =
      let size = c.replay_buffer.tree.size in
      let sample_size = min t.batch_size size in
      let (batch, buffer) = ReplayBuffer.sample t.draw sample_size c.replay_buffer in
      let steps = or_else n_steps sample_size in
      let result = train_drawn now steps batch m (record c { replay_buffer = buffer }) in
      if leb size 0 then (Training.insufficient_data, m, c) else result
