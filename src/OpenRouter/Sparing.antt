-- ===== src/OpenRouter/Sparing.antt =====
-- What the client's calls do to the circuit breaker.
use reinforce_spec.Prelude.{
  ℕ, ◌≤◌, ◌≡◌, ◌≢◌, refl, sym, ap, ◌∙◌, arith, String, Option, List, [], ◌∷◌,
}
use reinforce_spec.Breaker
use reinforce_spec.Breaker.{CircuitState, CircuitBreaker, Verdict, pass, rejected}
use reinforce_spec.Breaker.Trips.{check-not_opened}
use reinforce_spec.OpenRouter.Defs.{
  Result, ok, raise, Reply, Tenacity, Client, World, Request, is_transient, retry_error, call,
  kwargs, chosen_model, complete_with_retry, settle, proceed, guarded, complete,
}
use reinforce_spec.OpenRouter.Retrying.{reraise-attempt, call-ne-retry_error}

-- The breaker was not opened, and counts no more failures than before.
pub record Spared (old new : CircuitBreaker) : Type 0 where
  pub not_opened : new.state ≢ CircuitState.opened
  pub count_le : new.failure_count ≤ old.failure_count

module _ (t : Tenacity) (w : World) (r : Request) where
  complete_with_retry-ne :
      (m : String) (c : Client) → complete_with_retry t w r m c ≢ raise retry_error
  unfolding complete_with_retry
  complete_with_retry-ne m c h =
      let f = λ (i : ℕ). call m (w.answer (kwargs r m) i) in
      let (i, _, e) = reraise-attempt t c.config.max_retries is_transient f in
      call-ne-retry_error m (w.answer (kwargs r m) i) (sym e ∙ h)

  settle-Spared :
      (c : Client) (x : Result Reply)
      → c.circuit.state ≢ CircuitState.opened
      → x ≢ raise retry_error
      → Spared c.circuit (settle w c x).1.circuit
  unfolding settle Breaker.record_success
  settle-Spared c (ok a) s h = record { not_opened = λ e. cc; count_le = omega arith }
  settle-Spared c (raise retry_error) s h = absurd (h refl)
  settle-Spared c (raise _) s h = record { not_opened = s; count_le = omega arith }

  proceed-Spared :
      (model : Option String) (c : Client)
      → c.circuit.state ≢ CircuitState.opened
      → Spared c.circuit (proceed t w r model c).1.circuit
  unfolding proceed
  proceed-Spared model c s = go (chosen_model model c.config.judge_models) refl
    where
      go :
          (x : Result String)
          → chosen_model model c.config.judge_models ≡ x
          → Spared c.circuit (proceed t w r model c).1.circuit
      go (ok m) e =
          rw (e, proceed)
            (settle-Spared c (complete_with_retry t w r m c) s (complete_with_retry-ne m c))
      go (raise x) e = rw (e, proceed) (record { not_opened = s; count_le = omega arith })

  pub complete-not_opened :
      (model : Option String) (c : Client)
      → c.circuit.state ≢ CircuitState.opened
      → complete t w r model c ≡ proceed t w r model c
  unfolding complete
  complete-not_opened model c s =
      ap (guarded t w r model c) (check-not_opened w.checked_at w.rejected_at c.circuit s)

  pub complete-Spared :
      (model : Option String) (c : Client)
      → c.circuit.state ≢ CircuitState.opened
      → Spared c.circuit (complete t w r model c).1.circuit
  complete-Spared model c s = rw (complete-not_opened model c s) (proceed-Spared model c s)

-- Calls of `complete` one after another, each in its own world.
unfoldable pub run_calls : Tenacity → List (World × Request × Option String) → Client → Client
run_calls t [] c = c
run_calls t ((w, r, model) ∷ calls) c = run_calls t calls (complete t w r model c).1

run_calls-Spared :
    (t : Tenacity) (calls : List (World × Request × Option String)) (c : Client)
    → c.circuit.state ≢ CircuitState.opened
    → Spared c.circuit (run_calls t calls c).circuit
unfolding run_calls
run_calls-Spared t [] c s = record { not_opened = s; count_le = omega arith }
run_calls-Spared t ((w, r, model) ∷ calls) c s =
    let first = complete-Spared t w r model c s in
    let rest = run_calls-Spared t calls (complete t w r model c).1 first.not_opened in
    record { not_opened = rest.not_opened; count_le = omega arith }

-- A client with a new breaker never opens it and never counts a failure, whatever the upstream
-- answers in whatever calls: with `reraise` set, tenacity raises the upstream's exception itself,
-- and `except RetryError` does not catch that.
pub breaker-never_trips :
    (t : Tenacity) (calls : List (World × Request × Option String)) (c : Client)
    → c.circuit.state ≡ CircuitState.closed
    → c.circuit.failure_count ≡ 0
    → ((run_calls t calls c).circuit.state ≢ CircuitState.opened)
      × ((run_calls t calls c).circuit.failure_count ≡ 0)
breaker-never_trips t calls c s z =
    let spared = run_calls-Spared t calls c (λ e. cc) in
    (spared.not_opened, omega (arith, spared.count_le))
