-- ===== src/Server/Specs.antt =====
-- `evaluate_specs` of reinforce_spec/server/routes/specs.py. The candidates come with what the schema
-- makes of them; `generated` is the identifier that `generate_request_id` returns.
use reinforce_spec.Prelude.{
  ℕ, String, List, Option, none, some, length, ltb, if◌then◌else◌, ◌==◌, string_eq,
}
use reinforce_spec.Types.{CandidateSpec, SelectionMethod}
use reinforce_spec.Scoring.{CustomerType, get_preset}
use reinforce_spec.Client
use reinforce_spec.Client.{Client, SelectCall, SelectError, SelectionResponse, Outcome}
use reinforce_spec.Server.Errors.{ErrorClass, ErrorResponse}

pub record EvaluateRequest : Type 0 where
  pub candidates : List CandidateSpec
  pub selection_method : String
  pub request_id : Option String
  pub description : String

pub data Answer : Type 0 where
  ok : SelectionResponse → Answer
  unprocessable : Answer
  failed : ErrorResponse → Answer

-- `SelectionMethod(selection_method)`; none is the ValueError.
abbrev pub method_of : String → Option SelectionMethod
method_of name =
    if name == "hybrid"
    then some SelectionMethod.hybrid
    else (if name == "scoring_only"
        then some SelectionMethod.scoring_only
        else (if name == "rl_only" then some SelectionMethod.rl_only else none))

-- `request_id or generate_request_id()`
abbrev pub id_or : Option String → String → String
id_or none generated = generated
id_or (some request_id) generated = if request_id == "" then generated else request_id

abbrev pub class_of : SelectError → ErrorClass
class_of (SelectError.insufficient_candidates received) = ErrorClass.insufficient_candidates_error
class_of SelectError.integrity_error = ErrorClass.exception
class_of SelectError.index_error = ErrorClass.exception
class_of SelectError.value_error = ErrorClass.exception

abbrev pub answer_of : (ErrorClass → ErrorResponse) → Outcome → Answer
answer_of handle (Outcome.answered response) = Answer.ok response
answer_of handle (Outcome.raised e) = Answer.failed (handle (class_of e))

abbrev pub call_of : EvaluateRequest → String → ℕ → SelectionMethod → SelectCall
call_of body generated now method = record {
  request_id = id_or body.request_id generated;
  candidates = body.candidates;
  weights = get_preset CustomerType.default_type;
  customer_type = none;
  selection_method = method;
  description = body.description;
  now = now;
}

abbrev pub evaluate_by :
    (ErrorClass → ErrorResponse)
    → (ℕ → ℕ)
    → EvaluateRequest
    → String
    → ℕ
    → Client
    → Option SelectionMethod
    → Answer × Client
evaluate_by handle powered body generated now c none =
    (Answer.failed (handle ErrorClass.exception), c)
evaluate_by handle powered body generated now c (some method) =
    let (outcome, c') = Client.select powered (call_of body generated now method) c in
    (answer_of handle outcome, c')

-- The schema wants two candidates at least.
unfoldable pub evaluate_specs :
    (ErrorClass → ErrorResponse) → (ℕ → ℕ) → EvaluateRequest → String → ℕ → Client → Answer × Client
evaluate_specs handle powered body generated now c =
    let answer =
      evaluate_by handle powered body generated now c (method_of body.selection_method) in
    if ltb (length body.candidates) 2 then (Answer.unprocessable, c) else answer
