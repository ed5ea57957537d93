-- ===== src/OpenRouter/Retrying.antt =====
-- The retry decorator: which attempt decides, and a loop that meets tenacity's documentation.
use native.Mathlib.Decide.{ℕ_discrete}
use native.Mathlib.Nat.{le_refl, add-zero, zero-add}
use reinforce_spec.Prelude.{
  ℕ, zero, suc, ◌+◌, ◌<◌, ◌≤◌, ◌≡◌, ◌≢◌, ap, ◌∙◌, ◌⊎◌, inl, inr, Bool, true, false, Bool-cases,
  arith, if◌then◌else◌, String,
}
use reinforce_spec.OpenRouter.Defs.{
  Error, Result, raise, Reply, Answer, Tenacity, retries_on, retry_error, call, responds,
  connection_fails, status_fails, rate_limits, fails_otherwise, absent, malformed, seconds,
}

module _ (retryable : Error → Bool) (f : ℕ → Result Reply) where
  abbrev pub Retried : ℕ → Type 0
  Retried n = (j : ℕ) → j < n → retries_on retryable (f j) ≡ true

  abbrev pub Settled : ℕ → Type 0
  Settled n = (i : ℕ) × (i < n) × Retried i × (retries_on retryable (f i) ≡ false)

  Retried-suc : (n : ℕ) → Retried n → retries_on retryable (f n) ≡ true → Retried (suc n)
  Retried-suc n r e j h = ground (arith, r j)

  pub attempts_outcome : (n : ℕ) → Settled n ⊎ Retried n
  attempts_outcome zero = inr (λ j h. elim h [ ])
  attempts_outcome (suc n) = go (attempts_outcome n) (Bool-cases (retries_on retryable (f n)))
    where
      go :
          Settled n ⊎ Retried n
          → (retries_on retryable (f n) ≡ true) ⊎ (retries_on retryable (f n) ≡ false)
          → Settled (suc n) ⊎ Retried (suc n)
      go (inl (i, h, r, e)) _ = inl (i, omega arith, r, e)
      go (inr r) (inl e) = inr (Retried-suc n r e)
      go (inr r) (inr e) = inl (n, omega arith, r, e)

-- With `reraise` the decorator's result is always that of one of the attempts.
pub reraise-attempt :
    (t : Tenacity) (n : ℕ) (retryable : Error → Bool) (f : ℕ → Result Reply)
    → (i : ℕ) × (i < suc n) × (t.retrying (suc n) retryable true f ≡ f i)
reraise-attempt t n retryable f = elim (attempts_outcome retryable f (suc n)) [
  | inl (i, h, r, e) ↦ (i, h, t.settles (suc n) retryable true f i h r e)
  | inr r ↦ (n, omega arith, t.gives_up n retryable true f r)
]

pub call-ne-retry_error : (model : String) (a : Answer) → call model a ≢ raise retry_error
unfolding call
call-ne-retry_error model (responds r) = ground arith
call-ne-retry_error model connection_fails = ground arith
call-ne-retry_error model status_fails = ground arith
call-ne-retry_error model (rate_limits absent) = ground arith
call-ne-retry_error model (rate_limits malformed) = ground arith
call-ne-retry_error model (rate_limits (seconds n)) = ground arith
call-ne-retry_error model (fails_otherwise what) = ground arith

-- A loop that does what the documentation says, to run the model with.
unfoldable pub run_attempts : ℕ → ℕ → (Error → Bool) → Bool → (ℕ → Result Reply) → Result Reply
run_attempts zero i retryable reraise f = raise retry_error
run_attempts (suc zero) i retryable reraise f = elim (retries_on retryable (f i)) [
  | false ↦ f i
  | true ↦ if reraise then f i else raise retry_error
]
run_attempts (suc (suc n)) i retryable reraise f = elim (retries_on retryable (f i)) [
  | false ↦ f i
  | true ↦ run_attempts (suc n) (suc i) retryable reraise f
]

module _ (retryable : Error → Bool) (reraise : Bool) (f : ℕ → Result Reply) where
  pub run_attempts-settles :
      (n i k : ℕ)
      → i ≤ k
      → k < i + n
      → ((j : ℕ) → i ≤ j → j < k → retries_on retryable (f j) ≡ true)
      → retries_on retryable (f k) ≡ false
      → run_attempts n i retryable reraise f ≡ f k
  unfolding run_attempts
  run_attempts-settles zero i k a b r e = absurd (omega arith)
  run_attempts-settles (suc zero) i k a b r e =
      let same : i ≡ k = omega arith in rw (same, e, run_attempts) (ap f same)
  run_attempts-settles (suc (suc n)) i k a b r e = elim (ℕ_discrete i k) [
    | yes same ↦ rw (same, e, run_attempts) (ap f same)
    | no other ↦
        rw (r i (le_refl i) (omega arith), run_attempts)
          (run_attempts-settles (suc n) (suc i) k (omega arith) (omega arith)
            (λ j g h. r j (omega arith) h) e)
  ]

  pub run_attempts-gives_up :
      (n i : ℕ)
      → ((j : ℕ) → i ≤ j → j < i + suc n → retries_on retryable (f j) ≡ true)
      → run_attempts (suc n) i retryable reraise f
        ≡ (if reraise then f (i + n) else raise retry_error)
  unfolding run_attempts
  run_attempts-gives_up zero i r = rw (r i (le_refl i) (omega arith), add-zero, run_attempts)
  run_attempts-gives_up (suc n) i r =
      let e : i + suc n ≡ suc i + n = omega arith in
      rw (r i (le_refl i) (omega arith), e, run_attempts)
        (run_attempts-gives_up n (suc i) (λ j g h. r j (omega arith) (omega arith)))

-- The hypotheses on tenacity can be met.
abbrev pub plain_loop : Tenacity
plain_loop = record {
  retrying = λ n. run_attempts n 0;
  settles = λ n retryable reraise f i h r e.
      run_attempts-settles retryable reraise f n 0 i (omega arith) (omega arith) (λ j _ g. r j g) e;
  gives_up = λ n retryable reraise f r.
      run_attempts-gives_up retryable reraise f n 0 (λ j _ g. r j (omega arith))
      ∙ ap (λ k. if reraise then f k else raise retry_error) (zero-add n);
}
