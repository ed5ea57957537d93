-- ===== src/Server/Errors.antt =====
-- The exceptions of reinforce_spec/_exceptions.py and the handlers of reinforce_spec/server/app.py.
use reinforce_spec.Prelude.{ℕ, ◌≡◌, String, Option, none, some}

-- `exception` stands for every class outside the package.
pub data ErrorClass : Type 0 where
  exception reinforce_spec_error input_validation_error insufficient_candidates_error : ErrorClass
  scoring_error calibration_error rubric_error : ErrorClass
  policy_error policy_not_found_error policy_training_error replay_buffer_error : ErrorClass
  upstream_error circuit_breaker_open_error rate_limit_error : ErrorClass
  configuration_error storage_error idempotency_conflict_error : ErrorClass

abbrev pub parent : ErrorClass → Option ErrorClass
parent ErrorClass.exception = none
parent ErrorClass.reinforce_spec_error = some ErrorClass.exception
parent ErrorClass.input_validation_error = some ErrorClass.reinforce_spec_error
parent ErrorClass.insufficient_candidates_error = some ErrorClass.input_validation_error
parent ErrorClass.scoring_error = some ErrorClass.reinforce_spec_error
parent ErrorClass.calibration_error = some ErrorClass.scoring_error
parent ErrorClass.rubric_error = some ErrorClass.scoring_error
parent ErrorClass.policy_error = some ErrorClass.reinforce_spec_error
parent ErrorClass.policy_not_found_error = some ErrorClass.policy_error
parent ErrorClass.policy_training_error = some ErrorClass.policy_error
parent ErrorClass.replay_buffer_error = some ErrorClass.policy_error
parent ErrorClass.upstream_error = some ErrorClass.reinforce_spec_error
parent ErrorClass.circuit_breaker_open_error = some ErrorClass.upstream_error
parent ErrorClass.rate_limit_error = some ErrorClass.upstream_error
parent ErrorClass.configuration_error = some ErrorClass.reinforce_spec_error
parent ErrorClass.storage_error = some ErrorClass.reinforce_spec_error
parent ErrorClass.idempotency_conflict_error = some ErrorClass.storage_error

-- A message is fixed, or else the exception's own.
pub record ErrorResponse : Type 0 where
  pub status_code : ℕ
  pub error : String
  pub message : Option String
  pub retry_after : Option ℕ

abbrev pub error_response : ℕ → String → Option String → Option ℕ → ErrorResponse
error_response status_code error message retry_after = record {
  status_code = status_code;
  error = error;
  message = message;
  retry_after = retry_after;
}

-- `_register_exception_handlers`
unfoldable pub handler : ErrorClass → Option ErrorResponse
handler ErrorClass.configuration_error = some (error_response 500 "configuration_error" none none)
handler ErrorClass.circuit_breaker_open_error = some (
    error_response 503 "service_unavailable"
      (some "Upstream LLM service is temporarily unavailable") (some 30))
handler ErrorClass.rate_limit_error = some (error_response 429 "rate_limited" none (some 60))
handler ErrorClass.input_validation_error = some (error_response 422 "validation_failed" none none)
handler ErrorClass.scoring_error = some (error_response 502 "scoring_failed" none none)
handler ErrorClass.policy_not_found_error = some (error_response 404 "policy_not_found" none none)
handler ErrorClass.reinforce_spec_error = some (error_response 500 "internal_error" none none)
handler ErrorClass.exception =
    some (error_response 500 "internal_error" (some "An unexpected error occurred") none)
handler _ = none

-- What the framework documents: an exception goes to the handler of its class, or else to that of the
-- nearest class above it that has one.
pub record HandlesNearest (handle : ErrorClass → ErrorResponse) : Type 0 where
  pub own : (c : ErrorClass) (r : ErrorResponse) → handler c ≡ some r → handle c ≡ r
  pub inherited :
      (c above : ErrorClass) → handler c ≡ none → parent c ≡ some above → handle c ≡ handle above
