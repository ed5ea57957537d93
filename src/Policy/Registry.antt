-- ===== src/Policy/Registry.antt =====
-- The registry: its numbering, its production entries, and what the loops over it do.
use reinforce_spec.Prelude.{
  ℕ, suc, ◌+◌, ◌≤◌, ◌≡◌, refl, true, false, [], ◌∷◌, ◌++◌, none, some, length, arith, if◌then◌else◌,
  ◌==◌,
}
use reinforce_spec.Prelude.Dict.{lookup}
use reinforce_spec.Policy.Ids.{PolicyId, id_eq, policy_id, policy_id_injective}
use reinforce_spec.Policy.Defs.{
  PolicyMetadata, Registry, is_production, modify, archive_meta, archive_current_production,
  find_production, id_of,
}

-- The entries are the versions `k`, `k + 1`, ... in this order, each under its own identifier.
abbrev pub IsNumbered : ℕ → Registry → Type 0
IsNumbered k [] = Unit {0}
IsNumbered k ((j, m) ∷ r) =
    (j ≡ policy_id k) × (m.id ≡ policy_id k) × (m.version ≡ k) × IsNumbered (suc k) r

abbrev pub count_production : Registry → ℕ
count_production [] = 0
count_production ((j, m) ∷ r) = (if is_production m.stage then 1 else 0) + count_production r

pub lookup_numbered :
    (k n : ℕ) (r : Registry) → k + length r ≤ n → IsNumbered k r → lookup (policy_id n) r ≡ none
unfolding lookup
lookup_numbered k n [] h v = refl
lookup_numbered k n ((j, m) ∷ r) h v = ground (
  arith,
  id_eq.same_iff j (policy_id n),
  policy_id_injective k n,
  lookup_numbered (suc k) n r (omega arith) v.3,
)

pub IsNumbered-append :
    (k n : ℕ) (r : Registry) (i : PolicyId) (m : PolicyMetadata)
    → k + length r ≡ n
    → IsNumbered k r
    → i ≡ policy_id n
    → m.id ≡ policy_id n
    → m.version ≡ n
    → IsNumbered k (r ++ (i, m) ∷ [])
IsNumbered-append k n [] i m e v a b c = let e' : k ≡ n = omega arith in rw e' (a, b, c, tt)
IsNumbered-append k n ((j, m') ∷ r) i m e v a b c =
    (v.0, v.1, v.2, IsNumbered-append (suc k) n r i m (omega arith) v.3 a b c)

pub count_production-append :
    (r : Registry) (i : PolicyId) (m : PolicyMetadata)
    → count_production (r ++ (i, m) ∷ []) ≡ count_production r + count_production ((i, m) ∷ [])
count_production-append [] i m = omega arith
count_production-append ((j, m') ∷ r) i m = omega (arith, count_production-append r i m)

pub archive-IsNumbered :
    (now k : ℕ) (r : Registry) → IsNumbered k r → IsNumbered k (archive_current_production now r)
unfolding archive_current_production
archive-IsNumbered now k [] v = tt
archive-IsNumbered now k ((j, m) ∷ r) v =
    (v.0, ground arith, ground arith, archive-IsNumbered now (suc k) r v.3)

pub count_production-archive :
    (now : ℕ) (r : Registry) → count_production (archive_current_production now r) ≡ 0
unfolding archive_current_production
count_production-archive now [] = refl
count_production-archive now ((j, m) ∷ r) = ground (arith, count_production-archive now r)

pub lookup-archive :
    (now : ℕ) (i : PolicyId) (r : Registry)
    → lookup i (archive_current_production now r)
      ≡ (elim (lookup i r) [ none ↦ none | some m ↦ some (archive_meta now m) ])
unfolding lookup archive_current_production
lookup-archive now i [] = refl
lookup-archive now i ((j, m) ∷ r) = ground (arith, lookup-archive now i r)

module _ (i : PolicyId) (f : PolicyMetadata → PolicyMetadata) where
  pub lookup-modify :
      (j : PolicyId) (r : Registry)
      → lookup j (modify i f r)
        ≡ (if i == j then (elim (lookup i r) [ none ↦ none | some m ↦ some (f m) ]) else lookup j r)
  unfolding lookup
  lookup-modify j [] = ground arith
  lookup-modify j ((k, m) ∷ r) =
      ground (arith, id_eq.same_iff i j, id_eq.same_iff k i, id_eq.same_iff k j, lookup-modify j r)

  pub modify-IsNumbered :
      ((m : PolicyMetadata) → (f m).id ≡ m.id)
      → ((m : PolicyMetadata) → (f m).version ≡ m.version)
      → (k : ℕ) (r : Registry) → IsNumbered k r
      → IsNumbered k (modify i f r)
  modify-IsNumbered a b k [] v = tt
  modify-IsNumbered a b k ((j, m) ∷ r) v =
      ground (arith, a m, b m, modify-IsNumbered a b (suc k) r v.3)

  -- A write that leaves every stage and identifier alone.
  module _ (keeps_stage : (m : PolicyMetadata) → (f m).stage ≡ m.stage)
      (keeps_id : (m : PolicyMetadata) → (f m).id ≡ m.id) where
    pub count_production-modify_same :
        (r : Registry) → count_production (modify i f r) ≡ count_production r
    count_production-modify_same [] = refl
    count_production-modify_same ((j, m) ∷ r) =
        ground (arith, keeps_stage m, count_production-modify_same r)

    pub id_of-modify_same :
        (r : Registry) → id_of (find_production (modify i f r)) ≡ id_of (find_production r)
    unfolding find_production
    id_of-modify_same [] = refl
    id_of-modify_same ((j, m) ∷ r) = ground (arith, keeps_stage m, keeps_id m, id_of-modify_same r)

  module _ (m : PolicyMetadata) (before : is_production m.stage ≡ false) where
    -- A write between two stages that are not PRODUCTION.
    pub count_production-modify_idle :
        (r : Registry)
        → lookup i r ≡ some m
        → is_production (f m).stage ≡ false
        → count_production (modify i f r) ≡ count_production r
    unfolding lookup
    count_production-modify_idle [] e h = refl
    count_production-modify_idle ((j, n) ∷ r) e h = ground (arith, count_production-modify_idle r)

    pub find_production-modify_idle :
        (r : Registry)
        → lookup i r ≡ some m
        → is_production (f m).stage ≡ false
        → find_production (modify i f r) ≡ find_production r
    unfolding lookup find_production
    find_production-modify_idle [] e h = refl
    find_production-modify_idle ((j, n) ∷ r) e h = ground (arith, find_production-modify_idle r)

  module _ (m : PolicyMetadata) (after : is_production (f m).stage ≡ true) where
    -- A write of PRODUCTION where no entry is in production.
    pub count_production-modify_new :
        (r : Registry)
        → lookup i r ≡ some m
        → count_production r ≡ 0
        → count_production (modify i f r) ≡ 1
    unfolding lookup
    count_production-modify_new [] e h = cc
    count_production-modify_new ((j, n) ∷ r) e h = ground (arith, count_production-modify_new r)

    pub find_production-modify_new :
        (r : Registry)
        → lookup i r ≡ some m
        → count_production r ≡ 0
        → find_production (modify i f r) ≡ some (f m)
    unfolding lookup find_production
    find_production-modify_new [] e h = cc
    find_production-modify_new ((j, n) ∷ r) e h = ground (arith, find_production-modify_new r)

pub find_production-append :
    (r : Registry) (i : PolicyId) (m : PolicyMetadata)
    → is_production m.stage ≡ false
    → find_production (r ++ (i, m) ∷ []) ≡ find_production r
unfolding find_production
find_production-append [] i m h = ground arith
find_production-append ((j, n) ∷ r) i m h = ground (arith, find_production-append r i m h)

pub id_of_lookup :
    (k : ℕ) (r : Registry) (i : PolicyId) (m : PolicyMetadata)
    → IsNumbered k r
    → lookup i r ≡ some m
    → m.id ≡ i
unfolding lookup
id_of_lookup k [] i m v e = cc
id_of_lookup k ((j, n) ∷ r) i m v e =
    ground (arith, id_eq.same_iff j i, id_of_lookup (suc k) r i m v.3)
