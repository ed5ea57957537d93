-- ===== src/Policy/Defs.antt =====
-- `PolicyManager` of reinforce_spec/_internal/_policy.py. The weights of a
-- model, a fresh model's weights and the digest of a model file belong to stable-baselines3 and
-- hashlib: they are parameters. Times are readings of `utc_now`, arguments of each call.
use reinforce_spec.Prelude.{ℕ, ◌+◌, String, List, [], Option, none, some, length}
use reinforce_spec.Prelude.Dict.{lookup, insert}
use reinforce_spec.Policy.Ids.{PolicyId, id_eq, policy_id}
pub use reinforce_spec.Policy.Metadata.{
  PolicyStage, is_production, PolicyMetadata, Registry, modify, staged, same_stage, in_stage, id_of,
}
unfoldable pub use reinforce_spec.Policy.Metadata.{
  archive_meta, archive_current_production, find_production, list_policies,
}

-- A `PPOPolicy`: the weights of its model and its own count of training steps.
pub record PpoPolicy {ℓ} (W : Type ℓ) : Type ℓ where
  pub weights : W
  pub train_steps : ℕ

pub record Library {ℓ} (W : Type ℓ) : Type ℓ where
  pub fresh : W
  pub digest : W → String

-- The storage directory: registry.json, the model file and metadata.json of each version, and the
-- target of the `production` link.
pub record Disk {ℓ} (W : Type ℓ) : Type ℓ where
  pub registry : Option Registry
  pub models : List (PolicyId × W)
  pub metadata : List (PolicyId × PolicyMetadata)
  pub link : Option PolicyId

pub record Manager {ℓ} (W : Type ℓ) : Type ℓ where
  pub registry : Registry
  pub active_policy : Option (PpoPolicy W)
  pub disk : Disk W

pub data Error : Type 0 where
  policy_not_found value_error file_not_found : Error

pub data Result {ℓ} (A : Type ℓ) : Type ℓ where
  ok : A → Result A
  raise : Error → Result A

module _ {ℓ} {W : Type ℓ} where
  -- `_load_registry`, when the manager is made.
  abbrev pub saved_registry : Disk W → Registry
  saved_registry d = elim d.registry [ none ↦ [] | some r ↦ r ]

  unfoldable pub open_storage : Disk W → Manager W
  open_storage d = record { registry = saved_registry d; active_policy = none; disk = d }

  unfoldable pub save_registry : Manager W → Manager W
  save_registry m = record m { disk = record m.disk { registry = some m.registry } }

  -- The property `active_version`.
  unfoldable pub active_version : Manager W → Option PolicyId
  active_version m = id_of (find_production m.registry)

  -- A policy read from disk starts counting its steps anew.
  unfoldable pub load_policy : PolicyId → Manager W → Result (PpoPolicy W)
  load_policy i m = elim (lookup i m.disk.models) [
    | none ↦ raise file_not_found
    | some w ↦ ok (record { weights = w; train_steps = 0 })
  ]

  -- `_update_production_link`, where the file system has symbolic links.
  unfoldable pub update_production_link : PolicyId → Manager W → Manager W
  update_production_link i m = record m { disk = record m.disk { link = some i } }

  -- The end of `promote` and `rollback` for a policy that becomes the production one. A model file
  -- that is missing raises after the registry in memory and the link have changed.
  unfoldable pub activate :
      PolicyId → PolicyMetadata → Manager W → Result PolicyMetadata × Manager W
  unfolding load_policy update_production_link save_registry
  activate i meta m =
      let linked = update_production_link i m in
      elim (load_policy i linked) [
        | ok policy ↦ (ok meta, save_registry (record linked { active_policy = some policy }))
        | raise e ↦ (raise e, linked)
      ]

  unfoldable pub create_policy :
      Library W → ℕ → Option PolicyId → Manager W → (PpoPolicy W × PolicyMetadata) × Manager W
  unfolding save_registry
  create_policy lib now parent m =
      let version = length m.registry + 1 in
      let i = policy_id version in
      let meta : PolicyMetadata = record {
        id = i;
        version = version;
        stage = PolicyStage.candidate;
        created_at = now;
        promoted_at = none;
        archived_at = none;
        train_steps = 0;
        metrics = [];
        checksum = lib.digest lib.fresh;
        parent_id = parent;
      } in
      (
        (record { weights = lib.fresh; train_steps = 0 }, meta),
        save_registry (record m {
          registry = insert i meta m.registry;
          disk = record m.disk {
            models = insert i lib.fresh m.disk.models;
            metadata = insert i meta m.disk.metadata;
          };
        }),
      )

  -- The stages of `PROMOTION_ORDER` in turn; `index` does not find ARCHIVED there.
  unfoldable pub promote_from :
      PolicyStage → ℕ → PolicyId → PolicyMetadata → Manager W → Result PolicyMetadata × Manager W
  unfolding activate save_registry
  promote_from PolicyStage.candidate now i meta m =
      let f = staged PolicyStage.shadow now in
      (ok (f meta), save_registry (record m { registry = modify i f m.registry }))
  promote_from PolicyStage.shadow now i meta m =
      let f = staged PolicyStage.canary now in
      (ok (f meta), save_registry (record m { registry = modify i f m.registry }))
  promote_from PolicyStage.canary now i meta m =
      let f = staged PolicyStage.production now in
      activate i (f meta)
        (record m { registry = modify i f (archive_current_production now m.registry) })
  promote_from PolicyStage.production now i meta m = (ok meta, m)
  promote_from PolicyStage.archived now i meta m = (raise value_error, m)

  unfoldable pub promote : ℕ → PolicyId → Manager W → Result PolicyMetadata × Manager W
  promote now i m = elim (lookup i m.registry) [
    | none ↦ (raise policy_not_found, m)
    | some meta ↦ promote_from meta.stage now i meta m
  ]

  unfoldable pub restore :
      ℕ → PolicyId → Option PolicyMetadata → Manager W → Result PolicyMetadata × Manager W
  unfolding activate
  restore now i none m = (raise policy_not_found, m)
  restore now i (some meta) m =
      let f = staged PolicyStage.production now in
      activate i (f meta) (record m { registry = modify i f m.registry })

  -- The metadata is read again after the current production policy is archived.
  unfoldable pub rollback : ℕ → PolicyId → Manager W → Result PolicyMetadata × Manager W
  rollback now i m = elim (lookup i m.registry) [
    | none ↦ (raise policy_not_found, m)
    | some _ ↦
        let registry = archive_current_production now m.registry in
        restore now i (lookup i registry) (record m { registry = registry })
  ]

  unfoldable pub after_load :
      Manager W → Result (PpoPolicy W) → Result (Option (PpoPolicy W)) × Manager W
  after_load m (ok policy) = (ok (some policy), record m { active_policy = some policy })
  after_load m (raise e) = (raise e, m)

  unfoldable pub load_active :
      PolicyMetadata → Manager W → Result (Option (PpoPolicy W)) × Manager W
  unfolding after_load
  load_active meta m = elim m.active_policy [
    | some policy ↦ (ok (some policy), m)
    | none ↦ after_load m (load_policy meta.id m)
  ]

  -- A policy that is loaded already is returned as it is.
  unfoldable pub get_production_policy : Manager W → Result (Option (PpoPolicy W)) × Manager W
  unfolding load_active load_policy
  get_production_policy m = elim (find_production m.registry) [
    | none ↦ (ok none, m)
    | some meta ↦ load_active meta m
  ]

  abbrev pub checkpointed : Library W → PpoPolicy W → PolicyMetadata → PolicyMetadata
  checkpointed lib policy meta = record meta {
    checksum = lib.digest policy.weights;
    train_steps = policy.train_steps;
  }

  unfoldable pub save_checkpoint :
      Library W → PolicyId → PpoPolicy W → Manager W → Result (Unit {0}) × Manager W
  unfolding save_registry
  save_checkpoint lib i policy m = elim (lookup i m.registry) [
    | none ↦ (raise policy_not_found, m)
    | some _ ↦ (
      ok tt,
      save_registry (record m {
        registry = modify i (checkpointed lib policy) m.registry;
        disk = record m.disk { models = insert i policy.weights m.disk.models };
      }),
    )
  ]
