-- ===== src/Policy/Stale.antt =====
-- The policy that stays loaded after a first training, as `train_policy` of
-- reinforce_spec/client.py makes these calls.
use reinforce_spec.Prelude.{
  ℕ, ◌+◌, ◌≡◌, refl, ap, sym, subst, ◌∙◌, none, some, length, Option-cases, inl, inr, arith,
}
use reinforce_spec.Prelude.Dict.{lookup, lookup-insert}
use reinforce_spec.Policy.Ids.{PolicyId, id_eq, policy_id}
use reinforce_spec.Policy.Defs.{
  PolicyStage, PolicyMetadata, PpoPolicy, Library, Manager, ok, create_policy, promote,
  get_production_policy, save_checkpoint, find_production, staged, Registry, Result, id_of, modify,
  promote_from, load_active, checkpointed, archive_meta, archive_current_production,
}
use reinforce_spec.Policy.Registry.{lookup-modify, id_of-modify_same}
use reinforce_spec.Policy.Invariant.{IsValid, create-IsValid, activated, activate_found}
use reinforce_spec.Policy.Promotion.{in_production, lookup_archived, promote-IsValid}
use reinforce_spec.Policy.Rollback.{active_id}

module _ {ℓ} {W : Type ℓ} (lib : Library W) where
  abbrev pub new_version : Manager W → PolicyId
  new_version m = policy_id (length m.registry + 1)

  -- Create a policy, promote it three times, and save a checkpoint of the trained policy.
  unfoldable pub first_training : ℕ → PpoPolicy W → Manager W → Manager W
  first_training now trained m =
      let i = new_version m in
      let created = (create_policy lib now none m).1 in
      let in_shadow = (promote now i created).1 in
      let in_canary = (promote now i in_shadow).1 in
      let in_production = (promote now i in_canary).1 in
      (save_checkpoint lib i trained in_production).1

  -- The entry `i` is valid, in the given stage, with the fresh weights in its file.
  record Holds (stage : PolicyStage) (i : PolicyId) (m : Manager W) : Type ℓ where
    valid : IsValid m
    meta : PolicyMetadata
    entry : lookup i m.registry ≡ some meta
    in_stage : meta.stage ≡ stage
    model : lookup i m.disk.models ≡ some lib.fresh

  create-Holds :
      (now : ℕ) (m : Manager W)
      → IsValid m
      → Holds PolicyStage.candidate (new_version m) (create_policy lib now none m).1
  create-Holds now m v = record {
    valid = create-IsValid lib now none m v;
    meta = (create_policy lib now none m).0.1;
    entry =
        unfold create_policy in
        ground (
          arith,
          lookup-insert i i (create_policy lib now none m).0.1 m.registry,
          id_eq.same_iff i i,
        );
    in_stage = unfold create_policy in refl;
    model =
        unfold create_policy in
        ground (arith, lookup-insert i i lib.fresh m.disk.models, id_eq.same_iff i i);
  }
    where
      i : PolicyId
      i = new_version m

  promote_lem :
      (now : ℕ) (i : PolicyId) (stage : PolicyStage) (m : Manager W)
      → (h : Holds stage i m) → promote now i m ≡ promote_from stage now i h.meta m
  unfolding promote
  promote_lem now i stage m h =
      rw (h.entry, promote) (ap (λ s. promote_from s now i h.meta m) h.in_stage)

  lookup-modify_self :
      (i : PolicyId) (f : PolicyMetadata → PolicyMetadata) (r : Registry) (meta : PolicyMetadata)
      → lookup i r ≡ some meta
      → lookup i (modify i f r) ≡ some (f meta)
  lookup-modify_self i f r meta e = ground (arith, lookup-modify i f i r, id_eq.same_iff i i)

  to_shadow :
      (now : ℕ) (i : PolicyId) (m : Manager W)
      → Holds PolicyStage.candidate i m
      → Holds PolicyStage.shadow i (promote now i m).1
  unfolding promote_from
  to_shadow now i m h =
      let e = promote_lem now i PolicyStage.candidate m h in
      record {
        valid = promote-IsValid now i m h.valid;
        meta = staged PolicyStage.shadow now h.meta;
        entry =
            rw e (lookup-modify_self i (staged PolicyStage.shadow now) m.registry h.meta h.entry);
        in_stage = refl;
        model = rw e h.model;
      }

  to_canary :
      (now : ℕ) (i : PolicyId) (m : Manager W)
      → Holds PolicyStage.shadow i m
      → Holds PolicyStage.canary i (promote now i m).1
  unfolding promote_from
  to_canary now i m h =
      let e = promote_lem now i PolicyStage.shadow m h in
      record {
        valid = promote-IsValid now i m h.valid;
        meta = staged PolicyStage.canary now h.meta;
        entry =
            rw e (lookup-modify_self i (staged PolicyStage.canary now) m.registry h.meta h.entry);
        in_stage = refl;
        model = rw e h.model;
      }

  to_production :
      (now : ℕ) (i : PolicyId) (m : Manager W)
      → Holds PolicyStage.canary i m
      → (promote now i m).1
        ≡ activated i lib.fresh (record m { registry = in_production now i m.registry })
  unfolding promote_from
  to_production now i m h =
      ap (λ (x : Result PolicyMetadata × Manager W). x.1)
        (promote_lem now i PolicyStage.canary m h
          ∙ activate_found i (staged PolicyStage.production now h.meta)
              (record m { registry = in_production now i m.registry }) lib.fresh h.model)

  get_production_loaded :
      (m : Manager W) (policy : PpoPolicy W) (i : PolicyId)
      → m.active_policy ≡ some policy
      → id_of (find_production m.registry) ≡ some i
      → (get_production_policy m).0 ≡ ok (some policy)
  unfolding get_production_policy load_active
  get_production_loaded m policy i active found = elim (Option-cases (find_production m.registry)) [
    | inl e ↦ ground arith
    | inr (meta, e) ↦ rw (e, get_production_policy) (rw (active, load_active))
  ]

  -- The outcome of a checkpoint of `i` in the state `m`.
  abbrev Lost : PolicyId → PpoPolicy W → Manager W → Type ℓ
  Lost i trained m =
      let m' = (save_checkpoint lib i trained m).1 in
      (lookup i m'.disk.models ≡ some trained.weights)
      × ((get_production_policy m').0 ≡ ok (some (record { weights = lib.fresh; train_steps = 0 })))

  activated-Lost :
      (now : ℕ) (i : PolicyId) (trained : PpoPolicy W) (m : Manager W)
      → Holds PolicyStage.canary i m
      → Lost i trained
          (activated i lib.fresh (record m { registry = in_production now i m.registry }))
  unfolding save_checkpoint
  activated-Lost now i trained m h =
      let a = activated i lib.fresh (record m { registry = in_production now i m.registry }) in
      let f = staged PolicyStage.production now in
      let r = archive_current_production now m.registry in
      let entry : lookup i a.registry ≡ some (f (archive_meta now h.meta)) =
        lookup-modify_self i f r (archive_meta now h.meta)
          (lookup_archived now i m.registry h.meta h.entry) in
      let stays =
        id_of-modify_same i (checkpointed lib trained) (λ _. refl) (λ _. refl) a.registry
        ∙ active_id now i h.meta m h.valid h.entry in
      rw (entry, save_checkpoint)
        (
          ground (arith, lookup-insert i i trained.weights m.disk.models, id_eq.same_iff i i),
          get_production_loaded _ (record { weights = lib.fresh; train_steps = 0 }) i refl stays,
        )

  -- In the calls of a first training of a valid manager, the trained weights reach the model file,
  -- and yet the production policy that the manager goes on to return is the one with the fresh
  -- weights, which its promotion had loaded: the next training starts from those and overwrites
  -- the file.
  pub first_training-lost :
      (now : ℕ) (trained : PpoPolicy W) (m : Manager W)
      → IsValid m
      → let m' = first_training now trained m in
        (lookup (new_version m) m'.disk.models ≡ some trained.weights)
        × ((get_production_policy m').0
            ≡ ok (some (record { weights = lib.fresh; train_steps = 0 })))
  unfolding first_training
  first_training-lost now trained m v =
      let i = new_version m in
      let h1 = create-Holds now m v in
      let created = (create_policy lib now none m).1 in
      let h2 = to_shadow now i created h1 in
      let in_shadow = (promote now i created).1 in
      let h3 = to_canary now i in_shadow h2 in
      let in_canary = (promote now i in_shadow).1 in
      subst (Lost i trained) (sym (to_production now i in_canary h3))
        (activated-Lost now i trained in_canary h3)
