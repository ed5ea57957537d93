-- ===== src/Scoring/Answers.antt =====
-- The scores that come out of the judges' answers are in bounds.
use reinforce_spec.Prelude.{
  ℕ, zero, suc, ◌*◌, ◌≤◌, inl, inr, Bool, ◌&&◌, String, List, [], ◌∷◌, Option, none, some, length,
  ltb, All, arith, string_eq, nat_eq, Bool-cases,
}
use reinforce_spec.Types.{CandidateSpec}
use reinforce_spec.Scoring.Weights.{dimensions}
use reinforce_spec.Scoring.Judges.{
  Number, Json, Members, Read, converted, refused, overflows, Extracted, extracted, failed,
  overflowed, clamped, get, dimension_score, with_score, extract_scores, minimum_scores, or_minimum,
  evaluations_of, scores_from, parse_scores,
}
use reinforce_spec.Scoring.Pointwise.{
  Scorer, Result, score_single, answered, parsed_result, with_result, samples, judged_by,
  results_of, check_self_enhancement_risk,
}

-- Between 1.0 and 5.0.
abbrev pub Within : ℕ → ℕ → Type 0
Within one score = (one ≤ score) × (score ≤ 5 * one)

abbrev pub Scored : ℕ → List (String × ℕ) → Type 0
Scored one scores = All (λ e. Within one (e.1)) scores

clamped-Within : (one : ℕ) (n : Number) → Within one (clamped one n)
clamped-Within one (Number.finite n) = (omega arith, omega arith)
clamped-Within one Number.negative = (omega arith, omega arith)
clamped-Within one Number.infinite = (omega arith, omega arith)
clamped-Within one Number.nan = (omega arith, omega arith)

minimum_scores-Scored : (one : ℕ) (dims : List String) → Scored one (minimum_scores one dims)
minimum_scores-Scored one [] = tt
minimum_scores-Scored one (d ∷ dims) = ((omega arith, omega arith), minimum_scores-Scored one dims)

abbrev pub ScoredIfAny : ℕ → Option (List (String × ℕ)) → Type 0
ScoredIfAny one none = Unit {0}
ScoredIfAny one (some scores) = Scored one scores

abbrev ScoredIfExtracted : ℕ → Extracted → Type 0
ScoredIfExtracted one (extracted scores) = Scored one scores
ScoredIfExtracted one failed = Unit {0}
ScoredIfExtracted one overflowed = Unit {0}

with_score-Scored :
    (one : ℕ) (dimension : String) (score : Read) (rest : Extracted)
    → ScoredIfExtracted one rest
    → ScoredIfExtracted one (with_score one dimension score rest)
with_score-Scored one dimension (converted n) (extracted scores) h = (clamped-Within one n, h)
with_score-Scored one dimension (converted n) failed h = tt
with_score-Scored one dimension (converted n) overflowed h = tt
with_score-Scored one dimension refused rest h = tt
with_score-Scored one dimension overflows rest h = tt

extract_scores-Scored :
    (read : String → Option Number) (one : ℕ) (evaluations : Members) (dims : List String)
    → ScoredIfExtracted one (extract_scores read one evaluations dims)
unfolding extract_scores
extract_scores-Scored read one evaluations [] = tt
extract_scores-Scored read one evaluations (d ∷ dims) =
    with_score-Scored one d (dimension_score read one (get d (Json.object Members.nil) evaluations))
      (extract_scores read one evaluations dims) (extract_scores-Scored read one evaluations dims)

or_minimum-Scored :
    (one : ℕ) (result : Extracted)
    → ScoredIfExtracted one result
    → ScoredIfAny one (or_minimum one result)
or_minimum-Scored one (extracted scores) h = h
or_minimum-Scored one failed h = minimum_scores-Scored one dimensions
or_minimum-Scored one overflowed h = tt

scores_from-Scored :
    (read : String → Option Number) (one : ℕ) (evaluations : Option Members)
    → ScoredIfAny one (scores_from read one evaluations)
scores_from-Scored read one none = tt
scores_from-Scored read one (some evaluations) =
    or_minimum-Scored one (extract_scores read one evaluations dimensions)
      (extract_scores-Scored read one evaluations dimensions)

parse_scores-Scored :
    (read : String → Option Number) (one : ℕ) (answer : Option Json)
    → ScoredIfAny one (parse_scores read one answer)
unfolding parse_scores
parse_scores-Scored read one none = minimum_scores-Scored one dimensions
parse_scores-Scored read one (some answer) = scores_from-Scored read one (evaluations_of answer)

abbrev pub ScoredResults : ℕ → List Result → Type 0
ScoredResults one = All (λ r. Scored one (r.1))

with_result-Scored :
    (one index : ℕ) (scores : Option (List (String × ℕ))) (rest : List Result)
    → ScoredIfAny one scores
    → ScoredResults one rest
    → ScoredResults one (with_result (parsed_result index scores) rest)
with_result-Scored one index none rest h a = a
with_result-Scored one index (some scores) rest h a = (h, a)

answered-Scored :
    (s : Scorer) (c : CandidateSpec) (answer : Option (Option Json)) (rest : List Result)
    → ScoredResults s.one rest
    → ScoredResults s.one (with_result (answered s c answer) rest)
answered-Scored s c none rest a = a
answered-Scored s c (some answer) rest a =
    with_result-Scored s.one c.index (parse_scores s.read_float s.one answer) rest
      (parse_scores-Scored s.read_float s.one answer) a

samples-Scored :
    (s : Scorer) (c : CandidateSpec) (model : String) (left sample : ℕ) (rest : List Result)
    → ScoredResults s.one rest
    → ScoredResults s.one (samples s c model left sample rest)
unfolding samples score_single
samples-Scored s c model zero sample rest a = a
samples-Scored s c model (suc left) sample rest a =
    answered-Scored s c (s.reply c model sample) (samples s c model left (suc sample) rest)
      (samples-Scored s c model left (suc sample) rest a)

judged_by-Scored :
    (s : Scorer) (several : Bool) (c : CandidateSpec) (models : List String) (rest : List Result)
    → ScoredResults s.one rest
    → ScoredResults s.one (judged_by s several c models rest)
unfolding judged_by
judged_by-Scored s several c [] rest a = a
judged_by-Scored s several c (model ∷ models) rest a =
    let others = judged_by-Scored s several c models rest a in
    elim (Bool-cases (check_self_enhancement_risk s.lower model c.source_model && several)) [
      | inl skipped ↦ rw skipped others
      | inr asked ↦ rw asked (
          samples-Scored s c model s.judge_samples_per_model 0 (judged_by s several c models rest)
            others)
    ]

pub results_of-Scored :
    (s : Scorer) (models : List String) (cs : List CandidateSpec)
    → ScoredResults s.one (results_of s models cs)
unfolding results_of
results_of-Scored s models [] = tt
results_of-Scored s models (c ∷ cs) =
    judged_by-Scored s (ltb 1 (length models)) c models (results_of s models cs)
      (results_of-Scored s models cs)
