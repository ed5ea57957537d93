-- ===== src/Scoring/Examples.antt =====
-- Three candidates, the first two compared, and the answers of some judges.
use reinforce_spec.Prelude.{
  ℕ, zero, suc, ◌≤◌, arith, All, String, Option, none, string_eq, ◌≡◌, refl, true, List, [], ◌∷◌,
  some, inl,
}
use reinforce_spec.Prelude.Sort.{sort_desc}
use reinforce_spec.Scoring.Defs.{CandidateSpec, Judge, rank, lower}
use reinforce_spec.Prelude.Dict.{lookup}
use reinforce_spec.Types.{SpecFormat}
use reinforce_spec.Scoring.Weights.{CustomerType, get_preset}
use reinforce_spec.Scoring.Judges.{Json, Members, Number}
use reinforce_spec.Scoring.Trimming.{values_of, aggregate_scores_trimmed_mean}
use reinforce_spec.Scoring.Pointwise.{Scorer, results_of, score_candidates}
use reinforce_spec.Scoring.Robust.{aggregate-Robust}
use reinforce_spec.Scoring.Bounds.{Rated, score_candidates-Rated}
use reinforce_spec.Scoring.Ranking.{Ranked, rank-Ranked}
use reinforce_spec.Scoring.Position.{position_judge-rank}

abbrev spec : ℕ → ℕ → CandidateSpec
spec index score = record {
  index = index;
  content = "text";
  format = SpecFormat.text;
  source_model = "";
  dimension_scores = [];
  composite_score = score;
}

abbrev specs : List CandidateSpec
specs = spec 0 3 ∷ spec 1 5 ∷ spec 2 4 ∷ []

abbrev first_shown : Judge
first_shown a b = some "A"

rank-Ranked_example : Ranked first_shown 2 specs (rank first_shown 2 specs)
rank-Ranked_example = rank-Ranked first_shown 2 specs (omega arith) (omega arith)

position_judge-rank_example : rank first_shown 2 specs ≡ sort_desc lower specs
position_judge-rank_example =
    position_judge-rank first_shown "A" (inl refl) (λ a b. refl) 2 specs
      ((refl, (refl, tt)), ((refl, tt), (tt, tt)))

-- Five judges, the first one out of line.
abbrev judges : List (List (String × ℕ))
judges =
    (("security_architecture", 10) ∷ [])
    ∷ (("security_architecture", 40) ∷ [])
    ∷ (("security_architecture", 30) ∷ [])
    ∷ (("security_architecture", 35) ∷ [])
    ∷ (("security_architecture", 45) ∷ [])
    ∷ []

aggregate-Robust_example :
    (m : ℕ) × (aggregate_scores_trimmed_mean (1, 4) judges "security_architecture" ≡ some m)
    × (30 ≤ m)
    × (m ≤ 45)
unfolding values_of lookup
aggregate-Robust_example =
    aggregate-Robust 30 45 "security_architecture" judges (omega arith) (omega arith) (omega arith)

-- A judge that answers with one dimension too high, and another one that answers with no JSON.
abbrev reply : CandidateSpec → String → ℕ → Option (Option Json)
reply c model sample = elim sample [
  | zero ↦ some (
      some (
        Json.object (
          Members.member "evaluations"
            (Json.object
              (Members.member "security_architecture" (Json.number (Number.finite 90)) Members.nil))
            Members.nil)))
  | suc n ↦ some none
]

abbrev scorer : Scorer
scorer = record {
  one = 10;
  judge_models = "a/one" ∷ "b/two" ∷ [];
  multi_judge = true;
  judge_samples_per_model = 2;
  pairwise_top_k = 2;
  lower = λ t. t;
  read_float = λ t. none;
  reply = reply;
  verdict = first_shown;
}

score_candidates-Rated_example :
    (scored : List CandidateSpec) × (score_candidates scorer (get_preset CustomerType.bank) specs
      ≡ some scored)
    × All (Rated 10 (results_of scorer ("a/one" ∷ "b/two" ∷ []) specs)) scored
score_candidates-Rated_example =
    score_candidates-Rated scorer (get_preset CustomerType.bank) specs ("a/one" ∷ "b/two" ∷ []) refl
      (refl, (refl, (refl, tt))) refl
