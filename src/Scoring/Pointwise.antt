-- ===== src/Scoring/Pointwise.antt =====
-- The pointwise scores of all candidates, their composite scores, and `score_candidates`. The
-- answers of the judges are given by `reply`, by candidate, model and sample: none is a call that
-- raises, and then what the JSON library reads from its text. `lower` is `str.lower`. The detector
-- only records, and the calibration returns the candidates as they are.
use reinforce_spec.Prelude.{
  ℕ, zero, suc, ◌+◌, ◌*◌, ◌/◌, Bool, ◌&&◌, String, List, [], ◌∷◌, ◌++◌, Option, none, some, length,
  ltb, leb, if◌then◌else◌, ◌==◌, string_eq, nat_eq,
}
use Prim.Native.String.{slice, find}
use reinforce_spec.Prelude.Dict.{lookup, insert}
use reinforce_spec.Types.{CandidateSpec}
use reinforce_spec.Scoring.Weights.{ScoringWeights, as_dict, dimensions}
use reinforce_spec.Scoring.Judges.{Json, Number, parse_scores}
use reinforce_spec.Scoring.Trimming.{aggregate_scores_trimmed_mean}
use reinforce_spec.Scoring.Defs.{Judge, rank}

pub record Scorer : Type 0 where
  pub one : ℕ
  pub judge_models : List String
  pub multi_judge : Bool
  pub judge_samples_per_model : ℕ
  pub pairwise_top_k : ℕ
  pub lower : String → String
  pub read_float : String → Option Number
  pub reply : CandidateSpec → String → ℕ → Option (Option Json)
  pub verdict : Judge

-- `split("/")[0].lower()`
abbrev pub provider : (String → String) → String → String
provider lower model = lower (slice model 0 (find model "/"))

abbrev pub check_self_enhancement_risk : (String → String) → String → String → Bool
check_self_enhancement_risk lower judge_model source_model =
    provider lower judge_model == provider lower source_model

-- The judges of the mode; none where `judge_models[0]` raises an IndexError.
abbrev pub first_only : List String → Option (List String)
first_only [] = none
first_only (model ∷ models) = some (model ∷ [])

abbrev pub models_of : Scorer → Option (List String)
models_of s = if s.multi_judge then some s.judge_models else first_only s.judge_models

-- The scores of one candidate by one judge.
abbrev pub Result : Type 0
Result = ℕ × List (String × ℕ)

-- `_score_single`; none where it raises.
abbrev pub parsed_result : ℕ → Option (List (String × ℕ)) → Option Result
parsed_result index none = none
parsed_result index (some scores) = some (index, scores)

abbrev pub answered : Scorer → CandidateSpec → Option (Option Json) → Option Result
answered s candidate none = none
answered s candidate (some answer) =
    parsed_result candidate.index (parse_scores s.read_float s.one answer)

unfoldable pub score_single : Scorer → CandidateSpec → String → ℕ → Option Result
score_single s candidate model sample = answered s candidate (s.reply candidate model sample)

abbrev pub with_result : Option Result → List Result → List Result
with_result none results = results
with_result (some result) results = result ∷ results

-- The samples from `sample` on, `left` of them.
unfoldable pub samples : Scorer → CandidateSpec → String → ℕ → ℕ → List Result → List Result
unfolding score_single
samples s candidate model zero sample rest = rest
samples s candidate model (suc left) sample rest =
    with_result (score_single s candidate model sample)
      (samples s candidate model left (suc sample) rest)

-- The judges of one candidate; `alone` says that there is one judge only.
unfoldable pub judged_by : Scorer → Bool → CandidateSpec → List String → List Result → List Result
unfolding samples
judged_by s several candidate [] rest = rest
judged_by s several candidate (model ∷ models) rest =
    let others = judged_by s several candidate models rest in
    if check_self_enhancement_risk s.lower model candidate.source_model && several
    then others
    else samples s candidate model s.judge_samples_per_model 0 others

-- What `gather` returns, without the exceptions.
unfoldable pub results_of : Scorer → List String → List CandidateSpec → List Result
unfolding judged_by
results_of s models [] = []
results_of s models (c ∷ cs) = judged_by s (ltb 1 (length models)) c models (results_of s models cs)

-- `d.get(index, [])`
abbrev pub scores_of : Option (List (List (String × ℕ))) → List (List (String × ℕ))
scores_of none = []
scores_of (some scores) = scores

-- `scores_by_candidate`
unfoldable pub scores_by_candidate :
    List Result → List (ℕ × List (List (String × ℕ))) → List (ℕ × List (List (String × ℕ)))
scores_by_candidate [] groups = groups
scores_by_candidate ((index, scores) ∷ rest) groups =
    scores_by_candidate rest (insert index (scores_of (lookup index groups) ++ scores ∷ []) groups)

abbrev pub score_or : ℕ → Option ℕ → ℕ
score_or one none = one
score_or one (some score) = score

abbrev pub aggregated_scores :
    ℕ → ℕ × ℕ → List (List (String × ℕ)) → List String → List (String × ℕ)
aggregated_scores one fraction judge_scores [] = []
aggregated_scores one fraction judge_scores (dim ∷ dims) =
    (dim, score_or one (aggregate_scores_trimmed_mean fraction judge_scores dim))
    ∷ aggregated_scores one fraction judge_scores dims

abbrev pub trim_fraction : List (List (String × ℕ)) → ℕ × ℕ
trim_fraction judge_scores = if leb 4 (length judge_scores) then (1, 4) else (0, 4)

-- A candidate that no judge has scored stays as it is.
unfoldable pub with_scores : ℕ → List (List (String × ℕ)) → CandidateSpec → CandidateSpec
with_scores one [] c = c
with_scores one (scores ∷ more) c = record c {
  dimension_scores =
      aggregated_scores one (trim_fraction (scores ∷ more)) (scores ∷ more) dimensions;
}

abbrev pub all_scored :
    ℕ → List (ℕ × List (List (String × ℕ))) → List CandidateSpec → List CandidateSpec
all_scored one groups [] = []
all_scored one groups (c ∷ cs) =
    with_scores one (scores_of (lookup c.index groups)) c ∷ all_scored one groups cs

unfoldable pub pointwise_score_all : Scorer → List String → List CandidateSpec → List CandidateSpec
unfolding results_of scores_by_candidate
pointwise_score_all s models candidates =
    all_scored s.one (scores_by_candidate (results_of s models candidates) []) candidates

abbrev pub weight_or_zero : Option ℕ → ℕ
weight_or_zero none = 0
weight_or_zero (some w) = w

-- The sum of `_compute_composite` in hundredths of the unit, by the weights in hundredths.
unfoldable pub weighted : List (String × ℕ) → List (String × ℕ) → ℕ
weighted weights [] = 0
weighted weights ((dimension, score) ∷ rest) =
    score * weight_or_zero (lookup dimension weights) + weighted weights rest

-- `_compute_composite`: with no weight at all, the sum is 0 too.
unfoldable pub compute_composite : List (String × ℕ) → ScoringWeights → ℕ
unfolding weighted
compute_composite scores weights = weighted (as_dict weights) scores / 100

abbrev pub with_composites : ScoringWeights → List CandidateSpec → List CandidateSpec
with_composites weights [] = []
with_composites weights (c ∷ cs) =
    record c { composite_score = compute_composite c.dimension_scores weights }
    ∷ with_composites weights cs

unfoldable pub score_by :
    Scorer
    → ScoringWeights
    → List CandidateSpec
    → Option (List String)
    → Option (List CandidateSpec)
score_by s weights candidates none = none
score_by s weights candidates (some models) = some (
    rank s.verdict s.pairwise_top_k
      (with_composites weights (pointwise_score_all s models candidates)))

unfoldable pub score_candidates :
    Scorer → ScoringWeights → List CandidateSpec → Option (List CandidateSpec)
score_candidates s weights candidates = score_by s weights candidates (models_of s)
