-- ===== src/OpenRouter/Examples.antt =====
-- A client against small worlds, and its theorems at concrete inputs.
use reinforce_spec.Prelude.{
  ℕ, zero, suc, ◌≡◌, ◌≢◌, refl, ◌<◌, String, [], ◌∷◌, none, some, true, arith,
}
use reinforce_spec.Breaker
use reinforce_spec.Breaker.{CircuitState}
use reinforce_spec.OpenRouter.Defs.{
  ok, raise, Answer, Response, responds, connection_fails, rate_limits, seconds, Request, Kwargs,
  Client, World, call, kwargs, retries_on, is_transient, chosen_model, complete,
  api_connection_error, rs_rate_limit_error,
}
use reinforce_spec.OpenRouter.Fallbacks.{complete_with_fallback, after_model, try_models}
use reinforce_spec.OpenRouter.Retrying.{plain_loop}
use reinforce_spec.OpenRouter.Sparing.{run_calls, breaker-never_trips}
use reinforce_spec.OpenRouter.Outcomes.{complete-succeeds, complete-exhausted}
use reinforce_spec.OpenRouter.Fallback.{fallback-ends_down, fallback-skips_limited}

abbrev client : Client
client = record {
  config = record {
    judge_models = "judge" ∷ [];
    fallback_models = "a" ∷ "b" ∷ [];
    max_retries = 2;
  };
  circuit = Breaker.init 5 60;
  total_cost_usd = 0;
  total_calls = 0;
}

abbrev question : Request
question = record {
  messages = [];
  temperature = 8;
  max_tokens = 4096;
  response_format = none;
  schema = none;
  stop = none;
}

abbrev greeting : Response
greeting = record { usage = none; choices = some "hello" ∷ [] }

abbrev second_answers : Kwargs → ℕ → Answer
second_answers k zero = connection_fails
second_answers k (suc n) = responds greeting

abbrev world : (Kwargs → ℕ → Answer) → World
world answer = record {
  checked_at = 120;
  rejected_at = 121;
  failed_at = 130;
  started_ms = 1000;
  ended_ms = 1250;
  answer = answer;
}

abbrev down : World
down = world (λ k i. connection_fails)

abbrev limited : World
limited = world (λ k i. rate_limits (seconds 9))

closed-ne-opened : CircuitState.closed ≢ CircuitState.opened
closed-ne-opened e = cc

breaker-never_trips_example :
    ((run_calls plain_loop
        ((down, question, none) ∷ (limited, question, some "m") ∷ [])
        client).circuit.state
      ≢ CircuitState.opened)
    × ((run_calls plain_loop
          ((down, question, none) ∷ (limited, question, some "m") ∷ [])
          client).circuit.failure_count
        ≡ 0)
breaker-never_trips_example =
    breaker-never_trips plain_loop ((down, question, none) ∷ (limited, question, some "m") ∷ [])
      client refl refl

first_retries :
    (k : Kwargs) (j : ℕ)
    → j < 1
    → retries_on is_transient (call "judge" (second_answers k j)) ≡ true
unfolding call
first_retries k zero h = refl
first_retries k (suc n) h = absurd (omega arith)

complete-succeeds_example : complete plain_loop (world second_answers) question none client ≡ (
  ok (
    "hello",
    record {
      model = "judge";
      prompt_tokens = 0;
      completion_tokens = 0;
      total_tokens = 0;
      latency_ms = 250;
      cost_usd = none;
      status = "success";
    },
  ),
  record client { total_calls = 1 },
)
unfolding call chosen_model kwargs Breaker.record_success
complete-succeeds_example =
    complete-succeeds plain_loop (world second_answers) question none client "judge"
      closed-ne-opened refl 1 greeting (some "hello") [] (omega arith)
      (first_retries (kwargs question "judge")) refl refl

always_retries : (j : ℕ) → j < 3 → retries_on is_transient (call "judge" connection_fails) ≡ true
unfolding call
always_retries j h = refl

complete-exhausted_example :
    complete plain_loop down question none client ≡ (raise api_connection_error, client)
unfolding call chosen_model
complete-exhausted_example =
    complete-exhausted plain_loop down question none client "judge" closed-ne-opened refl
      always_retries

limited_call :
    (m : String) → call m (rate_limits (seconds 9)) ≡ raise (rs_rate_limit_error (some 9))
unfolding call
limited_call m = refl

fallback-skips_limited_example :
    complete_with_fallback plain_loop (λ i. limited) question (some ("a" ∷ "b" ∷ [])) client
    ≡ after_model
        (try_models plain_loop (λ i. limited) question 2 [])
        (complete plain_loop limited question (some "b") client)
fallback-skips_limited_example =
    fallback-skips_limited plain_loop (λ i. limited) question ("a" ∷ []) "b" [] client
      closed-ne-opened ((refl, some 9, limited_call "a"), tt)

-- The first model is rate limited, the next one cannot be reached.
abbrev limited_then_down : ℕ → World
limited_then_down zero = limited
limited_then_down (suc i) = down

fallback-ends_down_example :
    complete_with_fallback plain_loop limited_then_down question
      (some ("a" ∷ "b" ∷ "c" ∷ []))
      client
    ≡ (raise api_connection_error, client)
fallback-ends_down_example =
    fallback-ends_down plain_loop limited_then_down question ("a" ∷ []) "b" ("c" ∷ []) client
      closed-ne-opened ((refl, some 9, limited_call "a"), tt) refl (λ j. refl)
