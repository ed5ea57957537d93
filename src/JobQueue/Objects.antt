-- ===== src/JobQueue/Objects.antt =====
-- What a write to a job keeps.
use reinforce_spec.Prelude.{
  ℕ, zero, suc, ◌+◌, ◌≡◌, refl, ap, ◌∙◌, Bool, true, false, List, [], ◌∷◌, ◌++◌, Option, none, some,
  length, nat_beq, if◌then◌else◌, get_elem?, arith,
}
use reinforce_spec.JobQueue.Defs.{Job, JobStatus, modify, interrupted, places}

abbrev pub pending_status : JobStatus → Bool
pending_status JobStatus.pending = true
pending_status _ = false

abbrev pub is_pending {ℓ} : {R : Type ℓ} → Option (Job R) → Bool
is_pending none = false
is_pending (some j) = pending_status j.status

pub places-append : (first n : ℕ) → places first n ++ (first + n) ∷ [] ≡ places first (suc n)
places-append first zero = ap (λ k. k ∷ []) {x = first + 0} (omega arith)
places-append first (suc n) =
    ap (λ k. first ∷ places (first + 1) n ++ k ∷ []) {x = first + suc n} (omega arith)
    ∙ ap (λ ks. first ∷ ks) (places-append (first + 1) n)

module _ {ℓ} {R : Type ℓ} where
  pub length-modify :
      (k : ℕ) (f : Job R → Job R) (js : List (Job R)) → length (modify k f js) ≡ length js
  length-modify k f [] = refl
  length-modify zero f (j ∷ js) = refl
  length-modify (suc k) f (j ∷ js) = ap suc (length-modify k f js)

  -- A write that leaves a job that is not pending.
  pub pending-modify :
      (k i : ℕ) (f : Job R → Job R) (js : List (Job R))
      → ((j : Job R) → pending_status (f j).status ≡ false)
      → is_pending (get_elem? (modify k f js) i)
        ≡ (if nat_beq k i then false else is_pending (get_elem? js i))
  pending-modify k i f [] h = ground arith
  pending-modify zero zero f (j ∷ js) h = h j
  pending-modify zero (suc i) f (j ∷ js) h = ground arith
  pending-modify (suc k) zero f (j ∷ js) h = ground arith
  pending-modify (suc k) (suc i) f (j ∷ js) h = ground (arith, pending-modify k i f js h)

  -- A write that leaves the status.
  pub pending-interrupted :
      (k i now : ℕ) (js : List (Job R))
      → is_pending (get_elem? (modify k (interrupted now) js) i) ≡ is_pending (get_elem? js i)
  pending-interrupted k i now [] = refl
  pending-interrupted zero zero now (j ∷ js) = refl
  pending-interrupted zero (suc i) now (j ∷ js) = refl
  pending-interrupted (suc k) zero now (j ∷ js) = refl
  pending-interrupted (suc k) (suc i) now (j ∷ js) = pending-interrupted k i now js

  pub pending-append :
      (js : List (Job R)) (j : Job R) (i : ℕ)
      → pending_status j.status ≡ true
      → is_pending (get_elem? (js ++ j ∷ []) i)
        ≡ (if nat_beq i (length js) then true else is_pending (get_elem? js i))
  pending-append [] j zero h = h
  pending-append [] j (suc i) h = ground arith
  pending-append (x ∷ js) j zero h = ground arith
  pending-append (x ∷ js) j (suc i) h = ground (arith, pending-append js j i h)
