-- ===== src/Policy/Invariant.antt =====
-- The manager's invariant, and that every operation keeps it.
use reinforce_spec.Prelude.{
  ℕ, ◌+◌, ◌≤◌, ◌≡◌, refl, List, Option, none, some, length, arith, inl, inr, Option-cases,
}
use reinforce_spec.Prelude.Dict.{lookup, insert, insert_new, lookup-insert}
use reinforce_spec.Policy.Ids.{PolicyId, id_eq, policy_id}
use reinforce_spec.Policy.Defs.{
  checkpointed, PolicyMetadata, Registry, PpoPolicy, Library, Manager, ok, modify,
  archive_current_production, find_production, id_of, saved_registry, create_policy, activate,
  save_checkpoint,
}
use reinforce_spec.Policy.Registry.{
  IsNumbered, count_production, lookup_numbered, IsNumbered-append, count_production-append,
  lookup-archive, lookup-modify, modify-IsNumbered, count_production-modify_same, id_of-modify_same,
  find_production-append,
}

-- The link names the production policy, if there is one.
abbrev pub IsLinked : Registry → Option PolicyId → Type 0
IsLinked r link = (i : PolicyId) → id_of (find_production r) ≡ some i → link ≡ some i

module _ {ℓ} {W : Type ℓ} where
  -- Every registered policy has a model file.
  abbrev pub HasModels : Registry → List (PolicyId × W) → Type ℓ
  HasModels r models = (i : PolicyId) → lookup i models ≡ none → lookup i r ≡ none

  pub record IsValid (m : Manager W) : Type ℓ where
    pub numbered : IsNumbered 1 m.registry
    pub single : count_production m.registry ≤ 1
    pub saved : saved_registry m.disk ≡ m.registry
    pub stored : HasModels m.registry m.disk.models
    pub linked : IsLinked m.registry m.disk.link

  HasModels-insert :
      (r : Registry) (models : List (PolicyId × W)) (i : PolicyId) (w : W)
      → HasModels r models
      → HasModels r (insert i w models)
  HasModels-insert r models i w h j e = ground (arith, lookup-insert i j w models, h j)

  HasModels-create :
      (r : Registry) (models : List (PolicyId × W)) (i : PolicyId) (meta : PolicyMetadata) (w : W)
      → HasModels r models
      → HasModels (insert i meta r) (insert i w models)
  HasModels-create r models i meta w h j e =
      ground (arith, lookup-insert i j w models, lookup-insert i j meta r, h j)

  pub HasModels-modify :
      (r : Registry) (models : List (PolicyId × W)) (i : PolicyId)
      (f : PolicyMetadata → PolicyMetadata)
      → HasModels r models
      → HasModels (modify i f r) models
  HasModels-modify r models i f h j e =
      ground (arith, lookup-modify i f j r, h j e, id_eq.same_iff i j)

  pub HasModels-archive :
      (now : ℕ) (r : Registry) (models : List (PolicyId × W))
      → HasModels r models
      → HasModels (archive_current_production now r) models
  HasModels-archive now r models h j e = ground (arith, lookup-archive now j r, h j e)

  pub new_id :
      (m : Manager W) → IsValid m → lookup (policy_id (length m.registry + 1)) m.registry ≡ none
  new_id m v = lookup_numbered 1 (length m.registry + 1) m.registry (omega arith) v.numbered

  -- A new policy has an identifier that no registered policy has, and the invariant is kept.
  pub create-IsValid :
      (lib : Library W) (now : ℕ) (parent : Option PolicyId) (m : Manager W)
      → IsValid m
      → IsValid (create_policy lib now parent m).1
  unfolding create_policy
  create-IsValid lib now parent m v =
      let meta = (create_policy lib now parent m).0.1 in
      let i = policy_id (length m.registry + 1) in
      let e = insert_new i meta m.registry (new_id m v) in
      record {
        numbered = rw e (
            IsNumbered-append 1 (length m.registry + 1) m.registry i meta (omega arith) v.numbered
              refl refl refl);
        single = rw e (omega (arith, count_production-append m.registry i meta, v.single));
        saved = refl;
        stored = HasModels-create m.registry m.disk.models i meta lib.fresh v.stored;
        linked = rw (e, find_production-append m.registry i meta refl) v.linked;
      }

  pub save_checkpoint-IsValid :
      (lib : Library W) (i : PolicyId) (policy : PpoPolicy W) (m : Manager W)
      → IsValid m
      → IsValid (save_checkpoint lib i policy m).1
  unfolding save_checkpoint
  save_checkpoint-IsValid lib i policy m v =
      let f = checkpointed lib policy in
      elim (Option-cases (lookup i m.registry)) [
        | inl e ↦ rw (e, save_checkpoint) v
        | inr (meta, e) ↦
            rw (e, save_checkpoint)
              (record {
                numbered = modify-IsNumbered i f (λ _. refl) (λ _. refl) 1 m.registry v.numbered;
                single =
                    rw (count_production-modify_same i f (λ _. refl) (λ _. refl) m.registry)
                      v.single;
                saved = refl;
                stored =
                    HasModels-modify m.registry (insert i policy.weights m.disk.models) i f
                      (HasModels-insert m.registry m.disk.models i policy.weights v.stored);
                linked = rw (id_of-modify_same i f (λ _. refl) (λ _. refl) m.registry) v.linked;
              })
      ]

  -- The model file that a registered policy has.
  pub model_of :
      (r : Registry) (models : List (PolicyId × W)) (i : PolicyId) {meta : PolicyMetadata}
      → HasModels r models
      → lookup i r ≡ some meta
      → (w : W) × (lookup i models ≡ some w)
  model_of r models i h e = elim (Option-cases (lookup i models)) [
    | inl missing ↦ cc (h i missing)
    | inr (w, found) ↦ (w, found)
  ]

  abbrev pub activated : PolicyId → W → Manager W → Manager W
  activated i w m = record m {
    active_policy = some (record { weights = w; train_steps = 0 });
    disk = record m.disk { link = some i; registry = some m.registry };
  }

  pub activate_found :
      (i : PolicyId) (meta : PolicyMetadata) (m : Manager W) (w : W)
      → lookup i m.disk.models ≡ some w
      → activate i meta m ≡ (ok meta, activated i w m)
  unfolding activate
  activate_found i meta m w e = rw (e, activate)
