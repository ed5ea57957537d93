-- ===== src/OpenRouter/Outcomes.antt =====
-- What one `complete` returns, and how it leaves the client.
use reinforce_spec.Prelude.{
  ℕ, suc, ◌+◌, ◌-◌, ◌<◌, ◌≡◌, ◌≢◌, refl, ap, ◌∙◌, true, arith, String, Option, none, some, List,
  ◌∷◌,
}
use reinforce_spec.Breaker
use reinforce_spec.Breaker.{CircuitState, pass, rejected}
use reinforce_spec.Breaker.Trips.{deadline, check-before_deadline}
use reinforce_spec.OpenRouter.Defs.{
  Result, ok, raise, Reply, responds, Tenacity, Client, World, Request, Response, Usage,
  retry_error, retries_on, is_transient, circuit_breaker_open_error, call, kwargs, chosen_model,
  complete_with_retry, settle, proceed, complete, guarded, metrics_of,
}
use reinforce_spec.OpenRouter.Retrying.{Retried}
use reinforce_spec.OpenRouter.Sparing.{complete-not_opened}

-- `message.content or ""`
abbrev pub text_of : Option String → String
text_of none = ""
text_of (some text) = text

call-responds :
    (m : String) (x : Response) (text : Option String) (rest : List (Option String))
    → x.choices ≡ text ∷ rest
    → call m (responds x) ≡ ok (text_of text, metrics_of m x.usage)
unfolding call
call-responds m x none rest shape = rw (shape, call)
call-responds m x (some text) rest shape = rw (shape, call)

cost_usd-metrics_of : (m : String) (u : Option Usage) → (metrics_of m u).cost_usd ≡ none
unfolding metrics_of
cost_usd-metrics_of m none = refl
cost_usd-metrics_of m (some u) = refl

-- A transient error passes through the `except`.
pub settle-transient :
    (w : World) (c : Client) (x : Result Reply)
    → retries_on is_transient x ≡ true
    → settle w c x ≡ (x, c)
unfolding settle
settle-transient w c (ok a) h = cc
settle-transient w c (raise retry_error) h = cc
settle-transient w c (raise _) h = refl

module _ (t : Tenacity) (w : World) (r : Request) (model : Option String) (c : Client) where
  -- An open breaker before its deadline answers for the upstream: the call raises with the time
  -- that is left and changes nothing, whatever the upstream would have answered.
  complete-opened :
      c.circuit.state ≡ CircuitState.opened
      → w.checked_at < deadline c.circuit
      → complete t w r model c
        ≡ (raise (circuit_breaker_open_error (deadline c.circuit - w.rejected_at)), c)
  unfolding complete
  complete-opened s h =
      ap (guarded t w r model c) (check-before_deadline w.checked_at w.rejected_at c.circuit s h)

module _ (t : Tenacity) (w : World) (r : Request) (model : Option String) (c : Client) (m : String)
    (s : c.circuit.state ≢ CircuitState.opened)
    (chosen : chosen_model model c.config.judge_models ≡ ok m) where
  -- The answer to the attempt `i`, as `_call` hands it on.
  abbrev pub attempt : ℕ → Result Reply
  attempt i = call m (w.answer (kwargs r m) i)

  pub complete-settle : complete t w r model c ≡ settle w c (complete_with_retry t w r m c)
  unfolding proceed
  complete-settle = complete-not_opened t w r model c s ∙ rw (chosen, proceed)

  -- With the breaker not open and a model chosen: if the attempts before `i` fail transiently, `i`
  -- is within the retries, and the upstream answers it with a first choice, then that text and the
  -- token counts are returned with the measured latency, the breaker is reset, one call is
  -- counted, and the cost stays as it was.
  pub complete-succeeds :
      (i : ℕ) (x : Response) (text : Option String) (rest : List (Option String))
      → i < suc c.config.max_retries
      → Retried is_transient attempt i
      → w.answer (kwargs r m) i ≡ responds x
      → x.choices ≡ text ∷ rest
      → complete t w r model c ≡ (
        ok (text_of text, record (metrics_of m x.usage) { latency_ms = w.ended_ms - w.started_ms }),
        record c { circuit = Breaker.record_success c.circuit; total_calls = c.total_calls + 1 },
      )
  unfolding complete_with_retry settle
  complete-succeeds i x text rest h before now shape =
      let e : attempt i ≡ ok (text_of text, metrics_of m x.usage) =
        ap (call m) now ∙ call-responds m x text rest shape in
      complete-settle
      ∙ ap (settle w c) (
          t.settles (suc c.config.max_retries) is_transient true attempt i h before
            (ap (retries_on is_transient) e)
          ∙ e)
      ∙ rw (cost_usd-metrics_of m x.usage, settle)

  -- With the breaker not open and a model chosen: if every attempt fails transiently, the last
  -- attempt's own exception comes out, and neither the breaker nor any counter has changed.
  pub complete-exhausted :
      Retried is_transient attempt (suc c.config.max_retries)
      → complete t w r model c ≡ (attempt c.config.max_retries, c)
  unfolding complete_with_retry
  complete-exhausted all =
      complete-settle
      ∙ ap (settle w c) (t.gives_up c.config.max_retries is_transient true attempt all)
      ∙ settle-transient w c (attempt c.config.max_retries) (all c.config.max_retries (omega arith))
