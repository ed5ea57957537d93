-- ===== src/Client/Trained.antt =====
-- A training of the policy that is in production and loaded.
use reinforce_spec.Prelude.{
  ℕ, ◌+◌, ◌≡◌, inl, inr, refl, sym, ap, subst, ◌∙◌, true, false, List, [], ◌∷◌, Option, none, some,
  length, min, max, leb, if◌then◌else◌, arith, Bool-cases, ◌==◌,
}
use reinforce_spec.Prelude.Dict.{lookup, insert, lookup-insert}
use reinforce_spec.ReplayBuffer
use reinforce_spec.ReplayBuffer.Transitions.{Transition}
use reinforce_spec.Environment.{load_transitions, clear_replay}
use reinforce_spec.Policy.Ids.{PolicyId, id_eq}
use mathlib.Core.Option.{none-ne-some}
use reinforce_spec.Policy.{
  PolicyMetadata, PpoPolicy, Manager, ok, modify, is_production, get_production_policy, load_active,
  save_checkpoint, checkpointed, find_production, list_policies, save_registry,
}
use reinforce_spec.Client.Defs.{Client}
use reinforce_spec.Client.Training.{
  Trainer, Training, Learned, or_else, train_on_batch, train_policy, policy_or_first, train_chosen,
  after_training, after_learn, after_checkpoint, checkpoint_production, first_production,
}

module _ {ℓ} {W : Type ℓ} (t : Trainer W) where
  find-modify :
      (i : PolicyId) (policy : PpoPolicy W) (r : List (PolicyId × PolicyMetadata))
      (meta : PolicyMetadata)
      → find_production r ≡ some meta
      → (later : PolicyMetadata) × (find_production (modify i (checkpointed t.library policy) r)
          ≡ some later)
  unfolding find_production
  find-modify i policy [] meta e = absurd (none-ne-some meta e)
  find-modify i policy ((j, first) ∷ rest) meta e = elim (Bool-cases (is_production first.stage)) [
    | inl here ↦ elim (Bool-cases (j == i)) [
      | inl same ↦ (checkpointed t.library policy first, rw (same, here) refl)
      | inr other ↦ (first, rw (other, here) refl)
    ]
    | inr not_here ↦
        let below : find_production rest ≡ some meta =
          ap (λ b. if b then some first else find_production rest) (sym not_here) ∙ e in
        elim (Bool-cases (j == i)) [
          | inl same ↦ (meta, rw (same, not_here) below)
          | inr other ↦
              let (later, found) = find-modify i policy rest meta below in
              (later, rw (other, not_here) found)
        ]
  ]

  get_loaded :
      (m : Manager W) (policy : PpoPolicy W) (meta : PolicyMetadata)
      → find_production m.registry ≡ some meta
      → m.active_policy ≡ some policy
      → get_production_policy m ≡ (ok (some policy), m)
  unfolding get_production_policy load_active
  get_loaded m policy meta found active =
      rw (found, get_production_policy, active, load_active)
        (ap (λ o. (ok (some policy), record m { active_policy = o })) active)

  -- The manager after the checkpoint of a policy that it has loaded.
  abbrev pub checkpointed_manager : PolicyId → PpoPolicy W → Manager W → Manager W
  checkpointed_manager i trained m = save_registry (record m {
    registry = modify i (checkpointed t.library trained) m.registry;
    active_policy = some trained;
    disk = record m.disk { models = insert i trained.weights m.disk.models };
  })

  checkpoint_saved :
      (i : PolicyId) (trained : PpoPolicy W) (m : Manager W) (meta : PolicyMetadata)
      → lookup i m.registry ≡ some meta
      → save_checkpoint t.library i trained (record m { active_policy = some trained })
        ≡ (ok tt, checkpointed_manager i trained m)
  unfolding save_checkpoint
  checkpoint_saved i trained m meta entry = rw (entry, save_checkpoint) refl

  -- What training leaves of the policy in production.
  abbrev pub Kept : PolicyId → PpoPolicy W → Training × Manager W × Client → Type ℓ
  Kept i policy (training, m, c) =
      (training ≡ Training.trained)
      × ((get_production_policy m).0 ≡ ok (some policy))
      × (lookup i m.disk.models ≡ some policy.weights)
      × (c.selector.policy ≡ some (t.predictor policy))

  checkpointed-Kept :
      (i : PolicyId) (trained : PpoPolicy W) (m : Manager W) (c : Client) (meta : PolicyMetadata)
      → find_production m.registry ≡ some meta
      → Kept i trained (after_checkpoint t trained c (ok tt, checkpointed_manager i trained m))
  unfolding save_registry
  checkpointed-Kept i trained m c meta found =
      let (later, found') = find-modify i trained m.registry meta found in
      (
        refl,
        ap (λ r. r.0) (get_loaded (checkpointed_manager i trained m) trained later found' refl),
        ground (arith, lookup-insert i i trained.weights m.disk.models, id_eq.same_iff i i),
        refl,
      )

  after_learn-Kept :
      (m : Manager W) (c : Client) (policy : PpoPolicy W) (steps : ℕ) (learned : Learned W)
      (meta entry : PolicyMetadata)
      → find_production m.registry ≡ some meta
      → first_production t (list_policies m.registry none) ≡ some meta
      → lookup meta.id m.registry ≡ some entry
      → learned.completed ≡ true
      → Kept meta.id
          (record { weights = learned.weights; train_steps = policy.train_steps + steps })
          (after_training t true (after_learn t policy steps learned) m c)
  after_learn-Kept m c policy steps learned meta entry found listed there completed =
      let trained : PpoPolicy W = record {
        weights = learned.weights;
        train_steps = policy.train_steps + steps;
      } in
      let m1 = record m { active_policy = some trained } in
      let result =
        ap
          (λ b.
            after_training t true
              (
                (
                  b,
                  record {
                    weights = learned.weights;
                    train_steps = (if b then policy.train_steps + steps else policy.train_steps);
                  },
                ),
                clear_replay learned.env,
              )
              m c)
          completed
        ∙ ap (λ o. after_checkpoint t trained c (checkpoint_production t trained o m1)) listed
        ∙ ap (after_checkpoint t trained c) (checkpoint_saved meta.id trained m entry there) in
      subst (Kept meta.id trained) (sym result) (checkpointed-Kept meta.id trained m c meta found)

  -- The steps of a training of so many transitions.
  abbrev pub steps_of : Option ℕ → Client → List Transition → ℕ
  steps_of n_steps c batch =
      or_else (some (or_else n_steps (min t.batch_size c.replay_buffer.tree.size)))
        (max (length batch) t.ppo_batch_size)

  abbrev pub learned_of : Option ℕ → Client → PpoPolicy W → List Transition → Learned W
  learned_of n_steps c policy batch =
      t.learn policy.weights (load_transitions batch t.env) (steps_of n_steps c batch)

  -- With a policy that is loaded, whose entry is the first in production both in the registry and by
  -- version, and a sample that is not empty: if PPO.learn completes, then the trained policy is the
  -- one that the manager goes on to return, the one whose weights are in the model file, and the one
  -- that the selector asks.
  pub train_policy-Kept :
      (now : ℕ) (n_steps : Option ℕ) (m : Manager W) (c : Client) (policy : PpoPolicy W)
      (meta entry : PolicyMetadata) (first : Transition) (rest : List Transition) (indices : List ℕ)
      → find_production m.registry ≡ some meta
      → first_production t (list_policies m.registry none) ≡ some meta
      → lookup meta.id m.registry ≡ some entry
      → m.active_policy ≡ some policy
      → leb c.replay_buffer.tree.size 0 ≡ false
      → (ReplayBuffer.sample t.draw (min t.batch_size c.replay_buffer.tree.size) c.replay_buffer).0
        ≡ some (first ∷ rest, indices)
      → (learned_of n_steps c policy (first ∷ rest)).completed ≡ true
      → Kept meta.id
          (record {
            weights = (learned_of n_steps c policy (first ∷ rest)).weights;
            train_steps = policy.train_steps + steps_of n_steps c (first ∷ rest);
          })
          (train_policy t now n_steps m c)
  unfolding train_policy train_on_batch
  train_policy-Kept now n_steps m c policy meta entry first rest indices found listed there active
        some_there sampled completed =
      let size = min t.batch_size c.replay_buffer.tree.size in
      let buffer = (ReplayBuffer.sample t.draw size c.replay_buffer).1 in
      let c1 = record c { replay_buffer = buffer } in
      let result =
        ap (λ r. train_chosen t (first ∷ rest) (or_else n_steps size) (policy_or_first t now r) c1)
          (get_loaded m policy meta found active) in
      rw (some_there, sampled)
        (subst (Kept meta.id _) (sym result) (
          after_learn-Kept m c1 policy (steps_of n_steps c (first ∷ rest))
            (learned_of n_steps c policy (first ∷ rest)) meta entry found listed there completed))
