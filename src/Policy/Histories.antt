-- ===== src/Policy/Histories.antt =====
-- Whole histories of a storage directory, from an empty one.
use reinforce_spec.Prelude.{
  ℕ, refl, List, [], ◌∷◌, Option, none, some, Option-cases, inl, inr, arith,
}
use reinforce_spec.Prelude.Dict.{lookup}
use reinforce_spec.Policy.Ids.{PolicyId}
use reinforce_spec.Policy.Defs.{
  PpoPolicy, Library, Disk, Manager, open_storage, create_policy, promote, rollback,
  get_production_policy, save_checkpoint, find_production, load_active, load_policy, after_load,
  PolicyMetadata, Result, ok, raise,
}
use reinforce_spec.Policy.Invariant.{IsValid, create-IsValid, save_checkpoint-IsValid}
use reinforce_spec.Policy.Promotion.{promote-IsValid}
use reinforce_spec.Policy.Rollback.{rollback-IsValid}

-- A call of a method, with its clock reading; `restart` opens the directory anew.
pub data Op {ℓ} (W : Type ℓ) : Type ℓ where
  create : ℕ → Option PolicyId → Op W
  promotes rolls_back : ℕ → PolicyId → Op W
  checkpoint : PolicyId → PpoPolicy W → Op W
  get_production restart : Op W

abbrev pub empty_disk {ℓ} : {W : Type ℓ} → Disk W
empty_disk = record { registry = none; models = []; metadata = []; link = none }

module _ {ℓ} {W : Type ℓ} (lib : Library W) where
  unfoldable pub apply : Manager W → Op W → Manager W
  apply m (create now parent) = (create_policy lib now parent m).1
  apply m (promotes now i) = (promote now i m).1
  apply m (rolls_back now i) = (rollback now i m).1
  apply m (checkpoint i policy) = (save_checkpoint lib i policy m).1
  apply m get_production = (get_production_policy m).1
  apply m restart = open_storage m.disk

  unfoldable pub run : Manager W → List (Op W) → Manager W
  run m [] = m
  run m (op ∷ ops) = run (apply m op) ops

  open_storage-IsValid : (m : Manager W) → IsValid m → IsValid (open_storage m.disk)
  unfolding open_storage
  open_storage-IsValid m v = record {
    numbered = rw v.saved v.numbered;
    single = rw v.saved v.single;
    saved = refl;
    stored = rw v.saved v.stored;
    linked = rw v.saved v.linked;
  }

  -- The invariant does not speak of the policy that is loaded.
  active-IsValid :
      (m : Manager W) (active : Option (PpoPolicy W))
      → IsValid m
      → IsValid (record m { active_policy = active })
  active-IsValid m active v = record {
    numbered = v.numbered;
    single = v.single;
    saved = v.saved;
    stored = v.stored;
    linked = v.linked;
  }

  load_active-IsValid :
      (meta : PolicyMetadata) (m : Manager W) → IsValid m → IsValid (load_active meta m).1
  unfolding load_active
  load_active-IsValid meta m v = elim (Option-cases m.active_policy) [
    | inr (policy, e) ↦ rw (e, load_active) v
    | inl e ↦ rw (e, load_active) (go (load_policy meta.id m))
  ]
    where
      go : (r : Result (PpoPolicy W)) → IsValid (after_load m r).1
      go (ok policy) = active-IsValid m (some policy) v
      go (raise x) = v

  get_production-IsValid : (m : Manager W) → IsValid m → IsValid (get_production_policy m).1
  unfolding get_production_policy
  get_production-IsValid m v = elim (Option-cases (find_production m.registry)) [
    | inl e ↦ rw (e, get_production_policy) v
    | inr (meta, e) ↦ rw (e, get_production_policy) (load_active-IsValid meta m v)
  ]

  apply-IsValid : (m : Manager W) (op : Op W) → IsValid m → IsValid (apply m op)
  unfolding apply
  apply-IsValid m (create now parent) v = create-IsValid lib now parent m v
  apply-IsValid m (promotes now i) v = promote-IsValid now i m v
  apply-IsValid m (rolls_back now i) v = rollback-IsValid now i m v
  apply-IsValid m (checkpoint i policy) v = save_checkpoint-IsValid lib i policy m v
  apply-IsValid m get_production v = get_production-IsValid m v
  apply-IsValid m restart v = open_storage-IsValid m v

  run-IsValid : (m : Manager W) (ops : List (Op W)) → IsValid m → IsValid (run m ops)
  unfolding run
  run-IsValid m [] v = v
  run-IsValid m (op ∷ ops) v = run-IsValid (apply m op) ops (apply-IsValid m op v)

  -- Whatever is called, and with restarts in between, the directory stays valid: the versions are
  -- numbered from 1 without a gap under their own identifiers, at most one is in production, the
  -- link names it, every version has its model file, and registry.json is what memory holds.
  pub history-IsValid : (ops : List (Op W)) → IsValid (run (open_storage empty_disk) ops)
  unfolding open_storage lookup find_production
  history-IsValid ops = run-IsValid (open_storage empty_disk) ops (record {
    numbered = tt;
    single = omega arith;
    saved = refl;
    stored = λ i e. refl;
    linked = λ i p. cc;
  })
