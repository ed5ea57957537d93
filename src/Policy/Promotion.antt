-- ===== src/Policy/Promotion.antt =====
-- Promotion keeps the manager's invariant.
use reinforce_spec.Prelude.{
  ℕ, ◌≡◌, refl, ap, sym, subst, ◌∙◌, false, some, arith, inl, inr, Option-cases,
}
use reinforce_spec.Prelude.Dict.{lookup}
use reinforce_spec.Policy.Ids.{PolicyId, id_eq}
use reinforce_spec.Policy.Defs.{
  PolicyStage, PolicyMetadata, Registry, Manager, Result, is_production, modify, staged,
  archive_meta, archive_current_production, id_of, promote, promote_from, save_registry,
}
use reinforce_spec.Policy.Registry.{
  archive-IsNumbered, count_production-archive, lookup-archive, modify-IsNumbered,
  count_production-modify_idle, find_production-modify_idle, count_production-modify_new,
  find_production-modify_new, id_of_lookup,
}
use reinforce_spec.Policy.Invariant.{
  IsValid, HasModels-modify, HasModels-archive, model_of, activated, activate_found,
}

-- The registry once `i` is the production policy and the one before is archived.
abbrev pub in_production : ℕ → PolicyId → Registry → Registry
in_production now i r =
    modify i (staged PolicyStage.production now) (archive_current_production now r)

pub lookup_archived :
    (now : ℕ) (i : PolicyId) (r : Registry) (meta : PolicyMetadata)
    → lookup i r ≡ some meta
    → lookup i (archive_current_production now r) ≡ some (archive_meta now meta)
lookup_archived now i r meta e = ground (arith, lookup-archive now i r)

module _ {ℓ} {W : Type ℓ} where
  pub in_production-IsValid :
      (now : ℕ) (i : PolicyId) (meta : PolicyMetadata) (w : W) (m : Manager W)
      → IsValid m
      → lookup i m.registry ≡ some meta
      → IsValid (activated i w (record m { registry = in_production now i m.registry }))
  in_production-IsValid now i meta w m v e =
      let f = staged PolicyStage.production now in
      let r = archive_current_production now m.registry in
      let e' = lookup_archived now i m.registry meta e in
      let none_left = count_production-archive now m.registry in
      let numbered = archive-IsNumbered now 1 m.registry v.numbered in
      let single = count_production-modify_new i f (archive_meta now meta) refl r e' none_left in
      let found = find_production-modify_new i f (archive_meta now meta) refl r e' none_left in
      record {
        numbered = modify-IsNumbered i f (λ _. refl) (λ _. refl) 1 r numbered;
        single = omega (arith, single);
        saved = refl;
        stored =
            HasModels-modify r m.disk.models i f
              (HasModels-archive now m.registry m.disk.models v.stored);
        linked = λ j p.
            ap some (sym (id_of_lookup 1 r i (archive_meta now meta) numbered e'))
            ∙ sym (ap id_of found)
            ∙ p;
      }

  idle-IsValid :
      (stage : PolicyStage) (now : ℕ) (i : PolicyId) (meta : PolicyMetadata) (m : Manager W)
      → IsValid m
      → lookup i m.registry ≡ some meta
      → is_production meta.stage ≡ false
      → is_production stage ≡ false
      → IsValid (save_registry (record m { registry = modify i (staged stage now) m.registry }))
  unfolding save_registry
  idle-IsValid stage now i meta m v e a b =
      let f = staged stage now in
      record {
        numbered = modify-IsNumbered i f (λ _. refl) (λ _. refl) 1 m.registry v.numbered;
        single = rw (count_production-modify_idle i f meta a m.registry e b) v.single;
        saved = refl;
        stored = HasModels-modify m.registry m.disk.models i f v.stored;
        linked = rw (find_production-modify_idle i f meta a m.registry e b) v.linked;
      }

  promote_from-IsValid :
      (stage : PolicyStage) (now : ℕ) (i : PolicyId) (meta : PolicyMetadata) (m : Manager W)
      → IsValid m
      → lookup i m.registry ≡ some meta
      → meta.stage ≡ stage
      → IsValid (promote_from stage now i meta m).1
  unfolding promote_from
  promote_from-IsValid PolicyStage.candidate now i meta m v e s =
      idle-IsValid PolicyStage.shadow now i meta m v e (ap is_production s) refl
  promote_from-IsValid PolicyStage.shadow now i meta m v e s =
      idle-IsValid PolicyStage.canary now i meta m v e (ap is_production s) refl
  promote_from-IsValid PolicyStage.canary now i meta m v e s =
      let (w, found) = model_of m.registry m.disk.models i v.stored e in
      let m' = record m { registry = in_production now i m.registry } in
      subst (λ (x : Result PolicyMetadata × Manager W). IsValid x.1)
        (sym (activate_found i (staged PolicyStage.production now meta) m' w found))
        (in_production-IsValid now i meta w m v e)
  promote_from-IsValid PolicyStage.production now i meta m v e s = v
  promote_from-IsValid PolicyStage.archived now i meta m v e s = v

  -- Promotion keeps the invariant, whether it returns or raises.
  pub promote-IsValid :
      (now : ℕ) (i : PolicyId) (m : Manager W) → IsValid m → IsValid (promote now i m).1
  unfolding promote
  promote-IsValid now i m v = elim (Option-cases (lookup i m.registry)) [
    | inl e ↦ rw (e, promote) v
    | inr (meta, e) ↦ rw (e, promote) (promote_from-IsValid meta.stage now i meta m v e refl)
  ]
