-- ===== src/OpenRouter/Fallback.antt =====
-- Which failures make `complete_with_fallback` try the next model.
use reinforce_spec.Prelude.{
  ℕ, suc, ◌+◌, ◌≡◌, ◌≢◌, refl, ap, ◌∙◌, true, false, arith, String, Option, some, List, [], ◌∷◌,
  ◌++◌, length, ◌==◌, string_eq,
}
use reinforce_spec.Breaker.{CircuitState}
use reinforce_spec.OpenRouter.Defs.{
  ok, raise, Tenacity, Client, World, Request, connection_fails, retries_on, is_transient, call,
  kwargs, chosen_model, settle, complete_with_retry, complete, api_connection_error,
  rs_rate_limit_error,
}
use reinforce_spec.OpenRouter.Fallbacks.{after_model, try_models, complete_with_fallback}
use reinforce_spec.OpenRouter.Outcomes.{complete-exhausted, complete-settle}

chosen_model_named :
    (m : String) (judges : List String) → (m == "") ≡ false → chosen_model (some m) judges ≡ ok m
unfolding chosen_model
chosen_model_named m [] h = rw h
chosen_model_named m (j ∷ js) h = rw h

module _ (t : Tenacity) (w : ℕ → World) (r : Request) where
  -- The model `m` meets a connection error at each attempt of the call number `i`.
  abbrev pub Unreachable : ℕ → String → Type 0
  Unreachable i m = (j : ℕ) → (w i).answer (kwargs r m) j ≡ connection_fails

  complete-down :
      (i : ℕ) (m : String) (c : Client)
      → c.circuit.state ≢ CircuitState.opened
      → (m == "") ≡ false
      → Unreachable i m
      → complete t (w i) r (some m) c ≡ (raise api_connection_error, c)
  unfolding call
  complete-down i m c s named down =
      complete-exhausted t (w i) r (some m) c m s (chosen_model_named m c.config.judge_models named)
        (λ j h. ap (λ a. retries_on is_transient (call m a)) (down j))
      ∙ ap (λ a. (call m a, c)) (down c.config.max_retries)

  -- The model `m` is rate limited at the first attempt of the call number `i`.
  abbrev pub Limited : ℕ → String → Type 0
  Limited i m =
      ((m == "") ≡ false)
      × (h : Option ℕ) × (call m ((w i).answer (kwargs r m) 0) ≡ raise (rs_rate_limit_error h))

  abbrev pub AllLimited : ℕ → List String → Type 0
  AllLimited i [] = Unit {0}
  AllLimited i (m ∷ ms) = Limited i m × AllLimited (i + 1) ms

  complete-busy :
      (i : ℕ) (m : String) (c : Client)
      → c.circuit.state ≢ CircuitState.opened
      → (l : Limited i m) → complete t (w i) r (some m) c ≡ (raise (rs_rate_limit_error l.1), c)
  unfolding complete_with_retry settle
  complete-busy i m c s (named, h, e) =
      complete-settle t (w i) r (some m) c m s (chosen_model_named m c.config.judge_models named)
      ∙ ap (settle (w i) c) (
          t.settles (suc c.config.max_retries) is_transient true
            (λ k. call m ((w i).answer (kwargs r m) k)) 0 (omega arith) (λ j g. elim g [ ])
            (ap (retries_on is_transient) e)
          ∙ e)

  try_models-limited :
      (i : ℕ) (pre ms : List String) (c : Client)
      → c.circuit.state ≢ CircuitState.opened
      → AllLimited i pre
      → try_models t w r i (pre ++ ms) c ≡ try_models t w r (i + length pre) ms c
  unfolding try_models
  try_models-limited i [] ms c s l = ap (λ k. try_models t w r k ms c) (omega arith)
  try_models-limited i (m ∷ pre) ms c s (l, ls) =
      ap (after_model (try_models t w r (i + 1) (pre ++ ms))) (complete-busy i m c s l)
      ∙ try_models-limited (i + 1) pre ms c s ls
      ∙ ap (λ k. try_models t w r k ms c) (omega arith)

  -- Models that are rate limited are passed over with the client unchanged: the outcome is that
  -- of the first model after them, and of the loop over the others if that one fails.
  pub fallback-skips_limited :
      (pre : List String) (m : String) (ms : List String) (c : Client)
      → c.circuit.state ≢ CircuitState.opened
      → AllLimited 0 pre
      → complete_with_fallback t w r (some (pre ++ m ∷ ms)) c
        ≡ after_model
            (try_models t w r (length pre + 1) ms)
            (complete t (w (length pre)) r (some m) c)
  unfolding complete_with_fallback try_models
  fallback-skips_limited [] m ms c s l = refl
  fallback-skips_limited (p ∷ pre) m ms c s l =
      try_models-limited 0 (p ∷ pre) (m ∷ ms) c s l
      ∙ ap (λ k. try_models t w r k (m ∷ ms) c) (omega arith)

  -- With the breaker not open, and an explicit list of models: after models that are rate limited, a
  -- model with a name that meets a connection error at each attempt ends the fallback. Its error
  -- comes out with the client unchanged, and no later model is tried.
  pub fallback-ends_down :
      (pre : List String) (m : String) (ms : List String) (c : Client)
      → c.circuit.state ≢ CircuitState.opened
      → AllLimited 0 pre
      → (m == "") ≡ false
      → Unreachable (length pre) m
      → complete_with_fallback t w r (some (pre ++ m ∷ ms)) c ≡ (raise api_connection_error, c)
  unfolding after_model
  fallback-ends_down pre m ms c s l named down =
      fallback-skips_limited pre m ms c s l
      ∙ ap (after_model (try_models t w r (length pre + 1) ms))
          (complete-down (length pre) m c s named down)
