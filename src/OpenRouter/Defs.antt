-- ===== src/OpenRouter/Defs.antt =====
-- One completion call: `_complete_with_retry` and `complete`. Costs and seconds are natural numbers
-- of a fixed unit. Logging is left out.
use reinforce_spec.Prelude.{
  ℕ, suc, ◌+◌, ◌-◌, ◌<◌, ◌≡◌, Bool, true, false, String, List, [], ◌∷◌, Option, none, some,
  if◌then◌else◌, ◌==◌, string_eq,
}
use reinforce_spec.Breaker
use reinforce_spec.Breaker.{CircuitBreaker, Verdict, pass, rejected}

-- The exceptions that `complete` can raise. The SDK's own rate-limit error never leaves `_call`.
pub data Error : Type 0 where
  api_connection_error api_status_error retry_error upstream_error index_error value_error : Error
  rs_rate_limit_error : Option ℕ → Error
  circuit_breaker_open_error : ℕ → Error
  other_error : String → Error

pub data Result {ℓ} (A : Type ℓ) : Type ℓ where
  ok : A → Result A
  raise : Error → Result A

-- The `retry-after` header of a 429 as `float` reads it; an empty text counts as absent.
pub data RetryHeader : Type 0 where
  absent malformed : RetryHeader
  seconds : ℕ → RetryHeader

pub record Usage : Type 0 where
  pub prompt_tokens : ℕ
  pub completion_tokens : ℕ
  pub total_tokens : ℕ

pub record Response : Type 0 where
  pub usage : Option Usage
  pub choices : List (Option String)

-- What one `chat.completions.create` does.
pub data Answer : Type 0 where
  responds : Response → Answer
  connection_fails status_fails : Answer
  rate_limits : RetryHeader → Answer
  fails_otherwise : String → Answer

pub record LlmCallMetrics : Type 0 where
  pub model : String
  pub prompt_tokens : ℕ
  pub completion_tokens : ℕ
  pub total_tokens : ℕ
  pub latency_ms : ℕ
  pub cost_usd : Option ℕ
  pub status : String

abbrev pub Reply : Type 0
Reply = String × LlmCallMetrics

-- A JSON object of the request, as its fields.
abbrev pub Fields : Type 0
Fields = List (String × String)

pub data Format : Type 0 where
  plain : Fields → Format
  json_schema : Fields → Format

pub record Request : Type 0 where
  pub messages : List Fields
  pub temperature : ℕ
  pub max_tokens : ℕ
  pub response_format : Option Fields
  pub schema : Option Fields
  pub stop : Option (List String)

pub record Kwargs : Type 0 where
  pub model : String
  pub messages : List Fields
  pub temperature : ℕ
  pub max_tokens : ℕ
  pub response_format : Option Format
  pub stop : Option (List String)

-- Python's truth of an optional container: neither `None` nor empty.
abbrev pub truthy {ℓ} : {A : Type ℓ} → Option (List A) → Option (List A)
truthy none = none
truthy (some []) = none
truthy (some (x ∷ xs)) = some (x ∷ xs)

abbrev pub format_of : Option Fields → Option Fields → Option Format
format_of format schema = elim (truthy schema) [
  | some s ↦ some (json_schema s)
  | none ↦ elim (truthy format) [ some f ↦ some (plain f) | none ↦ none ]
]

unfoldable pub kwargs : Request → String → Kwargs
kwargs r model = record {
  model = model;
  messages = r.messages;
  temperature = r.temperature;
  max_tokens = r.max_tokens;
  response_format = format_of r.response_format r.schema;
  stop = truthy r.stop;
}

unfoldable pub metrics_of : String → Option Usage → LlmCallMetrics
metrics_of model none = record {
  model = model;
  prompt_tokens = 0;
  completion_tokens = 0;
  total_tokens = 0;
  latency_ms = 0;
  cost_usd = none;
  status = "success";
}
metrics_of model (some u) = record {
  model = model;
  prompt_tokens = u.prompt_tokens;
  completion_tokens = u.completion_tokens;
  total_tokens = u.total_tokens;
  latency_ms = 0;
  cost_usd = none;
  status = "success";
}

first_content : List (Option String) → Result String
first_content [] = raise index_error
first_content (none ∷ rest) = ok ""
first_content (some text ∷ rest) = ok text

rate_limited : RetryHeader → Error
rate_limited absent = rs_rate_limit_error none
rate_limited malformed = value_error
rate_limited (seconds n) = rs_rate_limit_error (some n)

-- The body of `_call`: the rate-limit error is replaced, and the first choice's text returned.
unfoldable pub call : String → Answer → Result Reply
unfolding metrics_of first_content rate_limited
call model (responds r) = elim (first_content r.choices) [
  | ok content ↦ ok (content, metrics_of model r.usage)
  | raise e ↦ raise e
]
call model connection_fails = raise api_connection_error
call model status_fails = raise api_status_error
call model (rate_limits h) = raise (rate_limited h)
call model (fails_otherwise what) = raise (other_error what)

-- `retry_if_exception_type((APIConnectionError, APIStatusError))`
abbrev pub is_transient : Error → Bool
is_transient api_connection_error = true
is_transient api_status_error = true
is_transient _ = false

-- An attempt after which the decorator tries again, if it may.
abbrev pub retries_on : (Error → Bool) → Result Reply → Bool
retries_on retryable (ok a) = false
retries_on retryable (raise e) = retryable e

-- tenacity's `retry` decorator as its documentation has it: the number of attempts of
-- `stop_after_attempt`, the test of `retry_if_exception_type`, the flag `reraise`, and what each
-- attempt would do. The waits between attempts do not change the result.
pub record Tenacity : Type 0 where
  pub retrying : ℕ → (Error → Bool) → Bool → (ℕ → Result Reply) → Result Reply
  -- The first attempt that needs no retry is the result.
  pub settles :
      (attempts : ℕ) (retryable : Error → Bool) (reraise : Bool) (f : ℕ → Result Reply) (i : ℕ)
      → i < attempts
      → ((j : ℕ) → j < i → retries_on retryable (f j) ≡ true)
      → retries_on retryable (f i) ≡ false
      → retrying attempts retryable reraise f ≡ f i
  -- When the attempts are used up, `reraise` decides between the last attempt's own exception and
  -- a `RetryError` that wraps it.
  pub gives_up :
      (n : ℕ) (retryable : Error → Bool) (reraise : Bool) (f : ℕ → Result Reply)
      → ((j : ℕ) → j < suc n → retries_on retryable (f j) ≡ true)
      → retrying (suc n) retryable reraise f ≡ (if reraise then f n else raise retry_error)

pub record LlmConfig : Type 0 where
  pub judge_models : List String
  pub fallback_models : List String
  pub max_retries : ℕ

pub record Client : Type 0 where
  pub config : LlmConfig
  pub circuit : CircuitBreaker
  pub total_cost_usd : ℕ
  pub total_calls : ℕ

-- What one `complete` meets: the readings of the clocks, in the order of the code, and the SDK's
-- answer to each attempt.
pub record World : Type 0 where
  pub checked_at : ℕ
  pub rejected_at : ℕ
  pub failed_at : ℕ
  pub started_ms : ℕ
  pub ended_ms : ℕ
  pub answer : Kwargs → ℕ → Answer

unfoldable pub complete_with_retry : Tenacity → World → Request → String → Client → Result Reply
unfolding kwargs
complete_with_retry t w r model c =
    t.retrying (suc c.config.max_retries) is_transient true
      (λ i. call model (w.answer (kwargs r model) i))

-- `model or judge_models[0]`
unfoldable pub chosen_model : Option String → List String → Result String
chosen_model none [] = raise index_error
chosen_model none (m ∷ ms) = ok m
chosen_model (some m) [] = if m == "" then raise index_error else ok m
chosen_model (some m) (j ∷ js) = if m == "" then ok j else ok m

abbrev pub charged : Option ℕ → ℕ → ℕ
charged none total = total
charged (some cost) total = total + cost

-- The `try` of `complete`, from the result of the retries on.
unfoldable pub settle : World → Client → Result Reply → Result Reply × Client
settle w c (ok (content, m)) = (
  ok (content, record m { latency_ms = w.ended_ms - w.started_ms }),
  record c {
    circuit = Breaker.record_success c.circuit;
    total_calls = c.total_calls + 1;
    total_cost_usd = charged m.cost_usd c.total_cost_usd;
  },
)
settle w c (raise retry_error) =
    (raise upstream_error, record c { circuit = Breaker.record_failure w.failed_at c.circuit })
settle w c (raise e) = (raise e, c)

-- What follows `check`.
unfoldable pub proceed : Tenacity → World → Request → Option String → Client → Result Reply × Client
unfolding chosen_model
proceed t w r model c = elim (chosen_model model c.config.judge_models) [
  | ok m ↦ settle w c (complete_with_retry t w r m c)
  | raise e ↦ (raise e, c)
]

-- `complete` once `check` has returned or raised.
unfoldable pub guarded :
    Tenacity
    → World
    → Request
    → Option String
    → Client
    → Verdict × CircuitBreaker
    → Result Reply × Client
guarded t w r model c (pass, circuit) = proceed t w r model (record c { circuit = circuit })
guarded t w r model c (rejected remaining, circuit) =
    (raise (circuit_breaker_open_error remaining), record c { circuit = circuit })

unfoldable pub complete :
    Tenacity → World → Request → Option String → Client → Result Reply × Client
unfolding guarded
complete t w r model c = guarded t w r model c (Breaker.check w.checked_at w.rejected_at c.circuit)
