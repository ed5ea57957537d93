-- ===== src/Policy/Metadata.antt =====
-- `PolicyStage` of reinforce_spec/types.py, `PolicyMetadata` of
-- reinforce_spec/_internal/_policy.py, and what the manager's methods do to the registry alone.
use reinforce_spec.Prelude.{
  ℕ, Bool, true, false, String, List, [], ◌∷◌, map, Option, none, some, ltb, if◌then◌else◌, ◌==◌,
}
use reinforce_spec.Prelude.Sort.{sort_desc}
use reinforce_spec.Policy.Ids.{PolicyId, id_eq}

pub data PolicyStage : Type 0 where
  candidate shadow canary production archived : PolicyStage

abbrev pub is_production : PolicyStage → Bool
is_production PolicyStage.production = true
is_production _ = false

pub record PolicyMetadata : Type 0 where
  pub id : PolicyId
  pub version : ℕ
  pub stage : PolicyStage
  pub created_at : ℕ
  pub promoted_at : Option ℕ
  pub archived_at : Option ℕ
  pub train_steps : ℕ
  pub metrics : List (String × ℕ)
  pub checksum : String
  pub parent_id : Option PolicyId

abbrev pub Registry : Type 0
Registry = List (PolicyId × PolicyMetadata)

-- A write through the metadata object that the registry holds under a key.
abbrev pub modify : PolicyId → (PolicyMetadata → PolicyMetadata) → Registry → Registry
modify i f [] = []
modify i f ((j, m) ∷ rest) = if j == i then (j, f m) ∷ rest else (j, m) ∷ modify i f rest

abbrev pub staged : PolicyStage → ℕ → PolicyMetadata → PolicyMetadata
staged stage now meta = record meta { stage = stage; promoted_at = some now }

-- The loop of `_archive_current_production`; its clock readings are taken as one.
unfoldable pub archive_meta : ℕ → PolicyMetadata → PolicyMetadata
archive_meta now m =
    if is_production m.stage
    then record m { stage = PolicyStage.archived; archived_at = some now }
    else m

unfoldable pub archive_current_production : ℕ → Registry → Registry
unfolding archive_meta
archive_current_production now [] = []
archive_current_production now ((j, m) ∷ rest) =
    (j, archive_meta now m) ∷ archive_current_production now rest

-- `for meta in self._registry.values(): if meta.stage == PRODUCTION`: the first one.
unfoldable pub find_production : Registry → Option PolicyMetadata
find_production [] = none
find_production ((j, m) ∷ rest) = if is_production m.stage then some m else find_production rest

abbrev pub same_stage : PolicyStage → PolicyStage → Bool
same_stage PolicyStage.candidate PolicyStage.candidate = true
same_stage PolicyStage.shadow PolicyStage.shadow = true
same_stage PolicyStage.canary PolicyStage.canary = true
same_stage PolicyStage.production PolicyStage.production = true
same_stage PolicyStage.archived PolicyStage.archived = true
same_stage _ _ = false

-- `[p for p in policies if p.stage == stage]`
abbrev pub in_stage : PolicyStage → List PolicyMetadata → List PolicyMetadata
in_stage stage [] = []
in_stage stage (m ∷ ms) =
    let rest = in_stage stage ms in if same_stage m.stage stage then m ∷ rest else rest

-- `sorted(policies, key=lambda p: p.version, reverse=True)` of those in the stage, if one is given.
unfoldable pub list_policies : Registry → Option PolicyStage → List PolicyMetadata
list_policies r stage =
    let all = map (λ e. e.1) r in
    sort_desc (λ p q. ltb p.version q.version) (elim stage [ none ↦ all | some s ↦ in_stage s all ])

abbrev pub id_of : Option PolicyMetadata → Option PolicyId
id_of none = none
id_of (some meta) = some meta.id
