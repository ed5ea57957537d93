-- ===== src/Policy/Rollback.antt =====
-- Rollback: what it returns, what it leaves, and the invariant.
use reinforce_spec.Prelude.{
  ℕ, ◌≡◌, refl, ap, sym, subst, ◌∙◌, Option, none, some, arith, if◌then◌else◌, ◌==◌, inl, inr,
  Option-cases,
}
use reinforce_spec.Prelude.Dict.{lookup}
use reinforce_spec.Policy.Ids.{PolicyId, id_eq}
use reinforce_spec.Policy.Defs.{
  PolicyStage, PolicyMetadata, Manager, Result, ok, staged, archive_meta,
  archive_current_production, find_production, id_of, active_version, rollback, restore,
}
use reinforce_spec.Policy.Registry.{
  archive-IsNumbered, count_production-archive, lookup-archive, lookup-modify,
  find_production-modify_new, id_of_lookup,
}
use reinforce_spec.Policy.Invariant.{IsValid, model_of, activated, activate_found}
use reinforce_spec.Policy.Promotion.{in_production, lookup_archived, in_production-IsValid}

module _ {ℓ} {W : Type ℓ} where
  -- What `rollback` computes on a registered policy.
  rollback_found :
      (now : ℕ) (i : PolicyId) (meta : PolicyMetadata) (w : W) (m : Manager W)
      → lookup i m.registry ≡ some meta
      → lookup i m.disk.models ≡ some w
      → rollback now i m ≡ (
        ok (staged PolicyStage.production now (archive_meta now meta)),
        activated i w (record m { registry = in_production now i m.registry }),
      )
  unfolding rollback restore
  rollback_found now i meta w m e found =
      let archived = record m { registry = archive_current_production now m.registry } in
      let m' = record m { registry = in_production now i m.registry } in
      rw (e, rollback)
        (ap (λ (o : Option PolicyMetadata). restore now i o archived)
            (lookup_archived now i m.registry meta e)
          ∙ activate_found i (staged PolicyStage.production now (archive_meta now meta)) m' w found)

  pub rollback-IsValid :
      (now : ℕ) (i : PolicyId) (m : Manager W) → IsValid m → IsValid (rollback now i m).1
  unfolding rollback
  rollback-IsValid now i m v = elim (Option-cases (lookup i m.registry)) [
    | inl e ↦ rw (e, rollback) v
    | inr (meta, e) ↦
        let (w, found) = model_of m.registry m.disk.models i v.stored e in
        subst (λ (x : Result PolicyMetadata × Manager W). IsValid x.1)
          (sym (rollback_found now i meta w m e found)) (in_production-IsValid now i meta w m v e)
  ]

  pub active_id :
      (now : ℕ) (i : PolicyId) (meta : PolicyMetadata) (m : Manager W)
      → IsValid m
      → lookup i m.registry ≡ some meta
      → id_of (find_production (in_production now i m.registry)) ≡ some i
  active_id now i meta m v e =
      let r = archive_current_production now m.registry in
      let e' = lookup_archived now i m.registry meta e in
      ap id_of (
        find_production-modify_new i (staged PolicyStage.production now) (archive_meta now meta)
          refl r e' (count_production-archive now m.registry))
      ∙ ap some (
          id_of_lookup 1 r i (archive_meta now meta)
            (archive-IsNumbered now 1 m.registry v.numbered) e')

  -- Rolling back to any registered policy of a valid manager returns its metadata in PRODUCTION,
  -- and makes it the active version, the link's target and the loaded policy, with the weights of
  -- its model file; every other policy keeps its metadata, but that the one in production before
  -- is archived.
  pub rollback-activates :
      (now : ℕ) (i : PolicyId) (meta : PolicyMetadata) (m : Manager W)
      → IsValid m
      → lookup i m.registry ≡ some meta
      → let m' = (rollback now i m).1 in
        ((rollback now i m).0 ≡ ok (staged PolicyStage.production now (archive_meta now meta)))
        × (active_version m' ≡ some i)
        × (m'.disk.link ≡ some i)
        × (m'.active_policy ≡ (elim (lookup i m.disk.models) [
          | none ↦ none
          | some w ↦ some (record { weights = w; train_steps = 0 })
        ]))
        × ((j : PolicyId)
            → lookup j m'.registry ≡ (
                if i == j
                then some (staged PolicyStage.production now (archive_meta now meta))
                else (elim (lookup j m.registry) [
                  | none ↦ none
                  | some old ↦ some (archive_meta now old)
                ])))
  rollback-activates now i meta m v e =
      let (w, found) = model_of m.registry m.disk.models i v.stored e in
      rw (rollback_found now i meta w m e found) (
        refl,
        unfold active_version in active_id now i meta m v e,
        refl,
        rw found,
        λ j.
            lookup-modify i (staged PolicyStage.production now) j
              (archive_current_production now m.registry)
            ∙ ground
                (arith, lookup_archived now i m.registry meta e, lookup-archive now j m.registry),
      )
