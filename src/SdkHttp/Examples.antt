-- ===== src/SdkHttp/Examples.antt =====
-- A call that is limited once and then answered.
use reinforce_spec.Prelude.{
  ℕ, zero, suc, ◌<◌, ◌≤◌, ◌≡◌, refl, true, false, String, [], ◌∷◌, Option, none, some, length,
  arith, inr,
}
use reinforce_spec.SdkHttp.Defs.{
  Response, fields, Sent, responds, Header, HttpClient, request, attempt_from, followed, attempted,
  caught, handle_response, exception_from_response, should_retry, get_retry_delay, backoff,
}
use reinforce_spec.SdkHttp.Retries.{Limited, outcome, again, request-sleeps, request-outcome}

abbrev answer : ℕ → Option String → Response String
answer code json = record {
  status_code = code;
  json = json;
  details = fields none;
  retry_after = Header.absent;
  limit = Header.absent;
  remaining = Header.absent;
  reset = Header.absent;
}

abbrev sdk : HttpClient
sdk = record { max_retries = 3; retry_delay = 1; retry_max_delay = 30 }

abbrev limited_once : ℕ → Sent String
limited_once zero = responds (answer 429 none)
limited_once (suc n) = responds (answer 200 (some "ok"))

one_sleep : (request "" sdk limited_once (λ n. 0)).1 ≡ 1 ∷ []
unfolding request attempt_from followed attempted caught handle_response exception_from_response
    should_retry get_retry_delay backoff
one_sleep = refl

request-sleeps_example :
    (length (request "" sdk limited_once (λ n. 0)).1 ≤ 3)
    × ((j : ℕ) → j < length (request "" sdk limited_once (λ n. 0)).1 → Limited (limited_once j))
request-sleeps_example = request-sleeps "" sdk limited_once (λ n. 0)

first_again : (j : ℕ) → j < 1 → again "" sdk limited_once (λ n. 0) j ≡ true
unfolding attempted caught handle_response exception_from_response should_retry
first_again zero h = refl
first_again (suc j) h = absurd (omega (arith, h))

second_stops : again "" sdk limited_once (λ n. 0) 1 ≡ false
unfolding attempted caught handle_response exception_from_response should_retry
second_stops = refl

request-outcome_example :
    (request "" sdk limited_once (λ n. 0)).0 ≡ outcome "" sdk limited_once (λ n. 0) 1
request-outcome_example =
    request-outcome "" sdk limited_once (λ n. 0) 1 (omega arith) first_again (inr second_stops)
