-- ===== src/OpenRouter/Fallbacks.antt =====
-- `complete_with_fallback`: the models in turn, until one returns.
use reinforce_spec.Prelude.{
  ℕ, ◌+◌, Bool, true, false, String, List, [], ◌∷◌, Option, some, none, if◌then◌else◌,
}
use reinforce_spec.OpenRouter.Defs.{
  Error, upstream_error, rs_rate_limit_error, circuit_breaker_open_error, Result, ok, raise, Reply,
  Request, Tenacity, Client, World, truthy, complete,
}

-- `except (UpstreamError, CircuitBreakerOpenError)`, with the subclasses of `UpstreamError`.
abbrev pub is_upstream : Error → Bool
is_upstream upstream_error = true
is_upstream (rs_rate_limit_error _) = true
is_upstream (circuit_breaker_open_error _) = true
is_upstream _ = false

-- After one model: return, go on with the next, or let the exception out.
unfoldable pub after_model :
    (Client → Result Reply × Client) → Result Reply × Client → Result Reply × Client
after_model rest (ok reply, c) = (ok reply, c)
after_model rest (raise e, c) = if is_upstream e then rest c else (raise e, c)

module _ (t : Tenacity) (w : ℕ → World) (r : Request) where
  -- The loop; `i` counts the calls of `complete`, each of which meets its own world.
  unfoldable pub try_models : ℕ → List String → Client → Result Reply × Client
  unfolding after_model
  try_models i [] c = (raise upstream_error, c)
  try_models i (m ∷ ms) c = after_model (try_models (i + 1) ms) (complete t (w i) r (some m) c)

  abbrev pub models_of : Option (List String) → Client → List String
  models_of models c = elim (truthy models) [ some ms ↦ ms | none ↦ c.config.fallback_models ]

  unfoldable pub complete_with_fallback : Option (List String) → Client → Result Reply × Client
  complete_with_fallback models c = try_models 0 (models_of models c) c
