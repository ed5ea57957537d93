-- ===== src/Server/Examples.antt =====
-- Handlers picked by hand, and two requests with one id.
use reinforce_spec.Prelude.{◌≡◌, refl, sym, ap, true, String, [], ◌∷◌, Option, some, none}
use mathlib.Core.Option.{some_inj, none-ne-some}
use reinforce_spec.Types.{CandidateSpec, SpecFormat, SelectionMethod, DegradationLevel}
use reinforce_spec.Persistence.{created}
use reinforce_spec.ReplayBuffer
use reinforce_spec.Environment
use reinforce_spec.Scoring.{Scorer}
use reinforce_spec.Client.{Client}
use reinforce_spec.Client.Records.{selects}
use reinforce_spec.Server.Errors.{
  ErrorClass, ErrorResponse, error_response, handler, parent, HandlesNearest,
}
use reinforce_spec.Server.Specs.{EvaluateRequest, Answer, evaluate_specs}
use reinforce_spec.Server.Reused.{WellFormed, reused-fails}

abbrev chosen : ErrorClass → Option ErrorResponse → ErrorResponse
chosen c (some r) = r
chosen ErrorClass.insufficient_candidates_error none =
    error_response 422 "validation_failed" none none
chosen ErrorClass.calibration_error none = error_response 502 "scoring_failed" none none
chosen ErrorClass.rubric_error none = error_response 502 "scoring_failed" none none
chosen _ none = error_response 500 "internal_error" none none

abbrev handle : ErrorClass → ErrorResponse
handle c = chosen c (handler c)

own_handler : (c : ErrorClass) (r : ErrorResponse) → handler c ≡ some r → handle c ≡ r
own_handler c r e = ap (chosen c) e

inherited_handler :
    (c above : ErrorClass) → handler c ≡ none → parent c ≡ some above → handle c ≡ handle above
unfolding handler
inherited_handler ErrorClass.exception above e p = absurd (none-ne-some _ (sym e))
inherited_handler ErrorClass.reinforce_spec_error above e p = absurd (none-ne-some _ (sym e))
inherited_handler ErrorClass.input_validation_error above e p = absurd (none-ne-some _ (sym e))
inherited_handler ErrorClass.scoring_error above e p = absurd (none-ne-some _ (sym e))
inherited_handler ErrorClass.policy_not_found_error above e p = absurd (none-ne-some _ (sym e))
inherited_handler ErrorClass.circuit_breaker_open_error above e p = absurd (none-ne-some _ (sym e))
inherited_handler ErrorClass.rate_limit_error above e p = absurd (none-ne-some _ (sym e))
inherited_handler ErrorClass.configuration_error above e p = absurd (none-ne-some _ (sym e))
inherited_handler ErrorClass.insufficient_candidates_error above e p = ap handle (some_inj.0 p)
inherited_handler ErrorClass.calibration_error above e p = ap handle (some_inj.0 p)
inherited_handler ErrorClass.rubric_error above e p = ap handle (some_inj.0 p)
inherited_handler ErrorClass.policy_error above e p = ap handle (some_inj.0 p)
inherited_handler ErrorClass.policy_training_error above e p = ap handle (some_inj.0 p)
inherited_handler ErrorClass.replay_buffer_error above e p = ap handle (some_inj.0 p)
inherited_handler ErrorClass.upstream_error above e p = ap handle (some_inj.0 p)
inherited_handler ErrorClass.storage_error above e p = ap handle (some_inj.0 p)
inherited_handler ErrorClass.idempotency_conflict_error above e p = ap handle (some_inj.0 p)

handle-HandlesNearest : HandlesNearest handle
handle-HandlesNearest = record { own = own_handler; inherited = inherited_handler }

abbrev spec : String → CandidateSpec
spec content = record {
  index = 0;
  content = content;
  format = SpecFormat.markdown;
  source_model = "";
  dimension_scores = [];
  composite_score = 0;
}

abbrev scorer : Scorer
scorer = record {
  one = 10;
  judge_models = "a/one" ∷ [];
  multi_judge = true;
  judge_samples_per_model = 1;
  pairwise_top_k = 1;
  lower = λ t. t;
  read_float = λ t. none;
  reply = λ c model sample. none;
  verdict = λ a b. none;
}

abbrev client : Client
client = record {
  n_candidates = 5;
  window_size = 500;
  scorer = scorer;
  selector = record {
    policy = none;
    floats = record {
      quotient = λ x most. x;
      single = λ p. p;
      reduced = λ w x y. 0;
      rest_of = λ w. 10;
      times = λ w x. x;
      plus = λ x y. x;
    };
    one = 10;
    rl_weight = 5;
    confidence_threshold = 3;
    degradation_level = DegradationLevel.l1_reduced;
  };
  storage = created;
  env = Environment.init 10 5 5;
  replay_buffer = ReplayBuffer.init 8 10;
  current = [];
}

abbrev body : EvaluateRequest
body = record {
  candidates = spec "first" ∷ spec "second" ∷ [];
  selection_method = "scoring_only";
  request_id = some "again";
  description = "";
}

body-WellFormed : WellFormed body "again" SelectionMethod.scoring_only
body-WellFormed = record { enough = refl; named = refl; nonempty = refl; known = refl }

reused-fails_example :
    let later = selects (λ e. e) [] (evaluate_specs handle (λ e. e) body "x" 7 client).1 in
    evaluate_specs handle (λ e. e) body "y" 9 later ≡ (
      Answer.failed
          (error_response 500 "internal_error" (some "An unexpected error occurred") none),
      later,
    )
reused-fails_example =
    reused-fails handle (λ e. e) body body "x" "y" 7 9 "again" SelectionMethod.scoring_only
      SelectionMethod.scoring_only [] client handle-HandlesNearest body-WellFormed body-WellFormed
