-- ===== src/Policy/Order.antt =====
-- Promotion against the list `PROMOTION_ORDER`.
use reinforce_spec.Prelude.{
  ℕ, ◌+◌, ◌≡◌, refl, ap, ◌∙◌, List, [], ◌∷◌, Option, none, some, get_elem?, if◌then◌else◌, arith,
}
use reinforce_spec.Prelude.Dict.{lookup}
use reinforce_spec.Policy.Ids.{PolicyId, id_eq}
use reinforce_spec.Policy.Defs.{
  PolicyStage, PolicyMetadata, Manager, Result, ok, raise, value_error, same_stage, staged, promote,
  promote_from,
}
use reinforce_spec.Policy.Invariant.{IsValid, model_of, activate_found}
use reinforce_spec.Policy.Promotion.{in_production}

abbrev pub promotion_order : List PolicyStage
promotion_order =
    PolicyStage.candidate ∷ PolicyStage.shadow ∷ PolicyStage.canary ∷ PolicyStage.production ∷ []

-- `list.index`, where `none` is its `ValueError`.
abbrev pub index_of : PolicyStage → List PolicyStage → Option ℕ
index_of stage [] = none
index_of stage (s ∷ ss) =
    let rest = index_of stage ss in
    if same_stage s stage then some 0 else (elim rest [ none ↦ none | some k ↦ some (k + 1) ])

-- The stage that follows in the list, if there is one; otherwise the metadata as it is.
abbrev pub advanced : ℕ → PolicyMetadata → Result PolicyMetadata
advanced now meta = elim (index_of meta.stage promotion_order) [
  | none ↦ raise value_error
  | some k ↦ elim (get_elem? promotion_order (k + 1)) [
    | none ↦ ok meta
    | some stage ↦ ok (staged stage now meta)
  ]
]

module _ {ℓ} {W : Type ℓ} where
  promote_from-advanced :
      (stage : PolicyStage) (now : ℕ) (i : PolicyId) (meta : PolicyMetadata) (m : Manager W)
      → IsValid m
      → lookup i m.registry ≡ some meta
      → meta.stage ≡ stage
      → (promote_from stage now i meta m).0 ≡ advanced now meta
  unfolding promote_from
  promote_from-advanced PolicyStage.candidate now i meta m v e s = ground arith
  promote_from-advanced PolicyStage.shadow now i meta m v e s = ground arith
  promote_from-advanced PolicyStage.canary now i meta m v e s =
      let (w, found) = model_of m.registry m.disk.models i v.stored e in
      let m' = record m { registry = in_production now i m.registry } in
      ap (λ (x : Result PolicyMetadata × Manager W). x.0)
        (activate_found i (staged PolicyStage.production now meta) m' w found)
      ∙ ground arith
  promote_from-advanced PolicyStage.production now i meta m v e s = ground arith
  promote_from-advanced PolicyStage.archived now i meta m v e s = ground arith

  -- On a registered policy of a valid manager `promote` returns the metadata in the stage that
  -- follows in PROMOTION_ORDER, unchanged at its end, and raises ValueError on an archived policy.
  pub promote-advanced :
      (now : ℕ) (i : PolicyId) (meta : PolicyMetadata) (m : Manager W)
      → IsValid m
      → lookup i m.registry ≡ some meta
      → (promote now i m).0 ≡ advanced now meta
  unfolding promote
  promote-advanced now i meta m v e =
      rw (e, promote) (promote_from-advanced meta.stage now i meta m v e refl)
