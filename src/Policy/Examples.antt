-- ===== src/Policy/Examples.antt =====
-- A storage directory with two versions, and the theorems at it.
use reinforce_spec.Prelude.{
  length, ◌+◌, ◌≡◌, refl, String, List, [], ◌∷◌, none, some, if◌then◌else◌, ◌==◌,
}
use reinforce_spec.Prelude.Dict.{lookup, insert}
use reinforce_spec.Policy.Ids.{PolicyId, id_eq, policy_id}
use reinforce_spec.Policy.Defs.{
  promote_from, archive_current_production, PolicyStage, PolicyMetadata, PpoPolicy, Library,
  Manager, ok, open_storage, create_policy, promote, rollback, get_production_policy,
  active_version, archive_meta, staged,
}
use reinforce_spec.Policy.Invariant.{IsValid, new_id}
use reinforce_spec.Policy.Histories.{
  Op, create, promotes, restart, empty_disk, apply, run, history-IsValid,
}
use reinforce_spec.Policy.Rollback.{rollback-activates}
use reinforce_spec.Policy.Order.{advanced, promote-advanced}
use reinforce_spec.Policy.Stale.{first_training, new_version, first_training-lost}

abbrev lib : Library String
lib = record { fresh = "fresh"; digest = λ w. w }

abbrev v1 : PolicyId
v1 = b'v' ∷ b'0' ∷ b'0' ∷ b'1' ∷ []

abbrev ops : List (Op String)
ops =
    create 1 none
    ∷ promotes 2 v1
    ∷ promotes 3 v1
    ∷ promotes 4 v1
    ∷ create 5 (some v1)
    ∷ restart
    ∷ []

abbrev manager : Manager String
manager = run lib (open_storage empty_disk) ops

abbrev first : PolicyMetadata
first = record {
  id = v1;
  version = 1;
  stage = PolicyStage.production;
  created_at = 1;
  promoted_at = some 4;
  archived_at = none;
  train_steps = 0;
  metrics = [];
  checksum = "fresh";
  parent_id = none;
}

first_entry : lookup v1 manager.registry ≡ some first
unfolding run apply open_storage create_policy promote promote_from archive_current_production
    policy_id lookup insert
first_entry = refl

new_id_example : lookup (policy_id (length manager.registry + 1)) manager.registry ≡ none
new_id_example = new_id manager (history-IsValid lib ops)

history-IsValid_example : IsValid manager
history-IsValid_example = history-IsValid lib ops

rollback-activates_example :
    let m' = (rollback 9 v1 manager).1 in
    ((rollback 9 v1 manager).0 ≡ ok (staged PolicyStage.production 9 (archive_meta 9 first)))
    × (active_version m' ≡ some v1)
    × (m'.disk.link ≡ some v1)
    × (m'.active_policy ≡ (elim (lookup v1 manager.disk.models) [
      | none ↦ none
      | some w ↦ some (record { weights = w; train_steps = 0 })
    ]))
    × ((j : PolicyId)
        → lookup j m'.registry ≡ (
            if v1 == j
            then some (staged PolicyStage.production 9 (archive_meta 9 first))
            else (elim (lookup j manager.registry) [
              | none ↦ none
              | some old ↦ some (archive_meta 9 old)
            ])))
rollback-activates_example =
    rollback-activates 9 v1 first manager history-IsValid_example first_entry

promote-advanced_example : (promote 9 v1 manager).0 ≡ advanced 9 first
promote-advanced_example = promote-advanced 9 v1 first manager history-IsValid_example first_entry

first_training-lost_example :
    let trained : PpoPolicy String = record { weights = "trained"; train_steps = 64 } in
    let m' = first_training lib 9 trained manager in
    (lookup (new_version lib manager) m'.disk.models ≡ some "trained")
    × ((get_production_policy m').0 ≡ ok (some (record { weights = "fresh"; train_steps = 0 })))
first_training-lost_example =
    first_training-lost lib 9 (record { weights = "trained"; train_steps = 64 }) manager
      history-IsValid_example
