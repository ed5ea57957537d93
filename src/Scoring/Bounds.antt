-- ===== src/Scoring/Bounds.antt =====
-- The bounds of all scores, whatever the judges answer.
use reinforce_spec.Prelude.{
  ℕ, ◌+◌, ◌-◌, ◌*◌, ◌/◌, ◌≤◌, ◌<◌, ◌≡◌, ◌⊎◌, inl, inr, refl, ap, ◌∙◌, true, ◌&&◌, String, List, [],
  ◌∷◌, map, Option, none, some, min, length, take, drop, ltb, leb, All, arith, string_eq, nat_eq,
  Bool-cases, length-take,
}
use native.Mathlib.Nat.{mul-le-mul_right}
use reinforce_spec.Prelude.Dict.{lookup}
use reinforce_spec.Prelude.Sort.{sort_desc}
use reinforce_spec.Prelude.Counting.{
  length-sort_desc, All-take, All-drop, All-append, All-sort_desc,
}
use reinforce_spec.Types.{CandidateSpec}
use reinforce_spec.Scoring.Weights.{
  ScoringWeights, CustomerType, as_dict, dimensions, get_preset, total_of, validate_sum,
}
use reinforce_spec.Scoring.Trimming.{
  sorts_after, between, trim_count_of, trimmed, values_of, mean_of_trimmed,
  aggregate_scores_trimmed_mean,
}
use reinforce_spec.Scoring.Defs.{
  Judge, rank, lower, reranked, merge_rankings, pairwise_rank_top_k, win_counts, below,
}
use reinforce_spec.Scoring.Pointwise.{
  Scorer, Result, results_of, scores_of, scores_by_candidate, score_or, aggregated_scores,
  trim_fraction, with_scores, all_scored, pointwise_score_all, weighted, compute_composite,
  weight_or_zero, with_composites, score_candidates, score_by, models_of,
}
use reinforce_spec.Scoring.Robust.{mean-within, length-drop}
use reinforce_spec.Scoring.Answers.{Within, Scored, results_of-Scored}
use reinforce_spec.Scoring.Groups.{
  ScoredGroups, answers_for, length-scores_by_candidate, WithinIfAny, scores_by_candidate-Scored,
  values_of-Within, lookup-Within, scores_of-lookup,
}

length-between : (k : ℕ) (values : List ℕ) → k < length values / 2 → 0 < length (between k values)
length-between k values small =
    let kept = take (length values - k) values in
    omega (arith, length-drop k kept, length-take (length values - k) values, small)

trimmed-Within :
    (one : ℕ) (fraction : ℕ × ℕ) (values : List ℕ)
    → 0 < length values
    → All (Within one) values
    → All (Within one) (trimmed fraction values) × (0 < length (trimmed fraction values))
unfolding trimmed
trimmed-Within one (num, den) values some_left a =
    let k = trim_count_of (num, den) (length values) in
    elim (Bool-cases (leb 3 (length values) && ltb 0 num)) [
      | inr few ↦ rw few (a, some_left)
      | inl many ↦ elim (Bool-cases (ltb k (length values / 2))) [
        | inr large ↦ rw (many, large) (a, some_left)
        | inl small ↦
            rw (many, small)
              (
                All-drop (Within one) k (take (length values - k) values)
                    (All-take (Within one) (length values - k) values a),
                length-between k values (ground (arith, small)),
              )
      ]
    ]

Within-both :
    (one : ℕ) (values : List ℕ)
    → All (Within one) values
    → All (λ v. one ≤ v) values × All (λ v. v ≤ 5 * one) values
Within-both one [] a = (tt, tt)
Within-both one (v ∷ values) ((low, high), more) =
    let (lows, highs) = Within-both one values more in ((low, lows), (high, highs))

mean_of_trimmed-Within :
    (one : ℕ) (fraction : ℕ × ℕ) (values : List ℕ)
    → All (Within one) values
    → WithinIfAny one (mean_of_trimmed fraction values)
mean_of_trimmed-Within one fraction [] a = tt
mean_of_trimmed-Within one fraction (v ∷ values) a =
    let sorted = sort_desc sorts_after (v ∷ values) in
    let (kept, some_left) =
      trimmed-Within one fraction sorted (omega (arith, length-sort_desc sorts_after (v ∷ values)))
        (All-sort_desc (Within one) sorts_after (v ∷ values) a) in
    let (lows, highs) = Within-both one (trimmed fraction sorted) kept in
    mean-within one (5 * one) (trimmed fraction sorted) some_left lows highs

aggregate-Within :
    (one : ℕ) (fraction : ℕ × ℕ) (judges : List (List (String × ℕ))) (dim : String)
    → All (Scored one) judges
    → WithinIfAny one (aggregate_scores_trimmed_mean fraction judges dim)
unfolding aggregate_scores_trimmed_mean
aggregate-Within one fraction [] dim a = tt
aggregate-Within one fraction (scores ∷ []) dim (a, _) = lookup-Within one dim scores a
aggregate-Within one fraction (scores ∷ more ∷ rest) dim a =
    mean_of_trimmed-Within one fraction (values_of dim (scores ∷ more ∷ rest))
      (values_of-Within one dim (scores ∷ more ∷ rest) a)

score_or-Within :
    (one : ℕ) (score : Option ℕ) → WithinIfAny one score → Within one (score_or one score)
score_or-Within one none h = (omega arith, omega arith)
score_or-Within one (some score) h = h

-- The weights that are looked up for a list of dimensions.
abbrev pub weights_of : List (String × ℕ) → List String → ℕ
weights_of weights [] = 0
weights_of weights (dim ∷ dims) = weight_or_zero (lookup dim weights) + weights_of weights dims

weights_of-as_dict : (w : ScoringWeights) → weights_of (as_dict w) dimensions ≡ total_of (as_dict w)
unfolding lookup
weights_of-as_dict w = refl

aggregated_scores-weighted :
    (one : ℕ) (fraction : ℕ × ℕ) (judges : List (List (String × ℕ))) (weights : List (String × ℕ))
    (dims : List String)
    → All (Scored one) judges
    → let sum_of = weighted weights (aggregated_scores one fraction judges dims) in
      (one * weights_of weights dims ≤ sum_of)
      × (sum_of ≤ 5 * one * weights_of weights dims)
      × Scored one (aggregated_scores one fraction judges dims)
unfolding weighted
aggregated_scores-weighted one fraction judges weights [] a = (omega arith, omega arith, tt)
aggregated_scores-weighted one fraction judges weights (dim ∷ dims) a =
    let score = score_or one (aggregate_scores_trimmed_mean fraction judges dim) in
    let (low, high) =
      score_or-Within one (aggregate_scores_trimmed_mean fraction judges dim)
        (aggregate-Within one fraction judges dim a) in
    let weight = weight_or_zero (lookup dim weights) in
    let (lows, highs, rest) = aggregated_scores-weighted one fraction judges weights dims a in
    (
      grind (arith, lows, mul-le-mul_right {m = one} {n = score} weight low),
      grind (arith, highs, mul-le-mul_right {m = score} {n = 5 * one} weight high),
      ((low, high), rest),
    )

-- A candidate for which some judge has answered, or one for which none has.
abbrev pub Rated : ℕ → List Result → CandidateSpec → Type 0
Rated one results c =
    ((0 < answers_for c.index results)
      × (map (λ e. e.0) c.dimension_scores ≡ dimensions)
      × Scored one c.dimension_scores
      × Within one c.composite_score)
    ⊎ ((answers_for c.index results ≡ 0) × (c.dimension_scores ≡ []) × (c.composite_score ≡ 0))

hundredths-Within : (one n : ℕ) → one * 100 ≤ n → n ≤ 5 * one * 100 → Within one (n / 100)
hundredths-Within one n low high = (omega (arith, low), omega (arith, high))

composite-Within :
    (one : ℕ) (fraction : ℕ × ℕ) (judges : List (List (String × ℕ))) (w : ScoringWeights)
    → All (Scored one) judges
    → validate_sum w ≡ true
    → Within one (compute_composite (aggregated_scores one fraction judges dimensions) w)
unfolding compute_composite
composite-Within one fraction judges w a sums =
    let (low, high, _) = aggregated_scores-weighted one fraction judges (as_dict w) dimensions a in
    let hundred : weights_of (as_dict w) dimensions ≡ 100 =
      weights_of-as_dict w ∙ ground (arith, sums) in
    let sum_of = weighted (as_dict w) (aggregated_scores one fraction judges dimensions) in
    hundredths-Within one sum_of (rw⁻¹ hundred low) (rw⁻¹ hundred high)

with_scores-Rated :
    (one : ℕ) (results : List Result) (judges : List (List (String × ℕ))) (c : CandidateSpec)
    (w : ScoringWeights)
    → length judges ≡ answers_for c.index results
    → All (Scored one) judges
    → c.dimension_scores ≡ []
    → validate_sum w ≡ true
    → Rated one results (record (with_scores one judges c) {
      composite_score = compute_composite (with_scores one judges c).dimension_scores w;
    })
unfolding with_scores compute_composite weighted
with_scores-Rated one results [] c w answers a fresh sums =
    inr (omega (arith, answers), fresh, ap (λ scores. compute_composite scores w) fresh)
with_scores-Rated one results (scores ∷ more) c w answers a fresh sums =
    let fraction = trim_fraction (scores ∷ more) in
    let (_, _, bounded) =
      aggregated_scores-weighted one fraction (scores ∷ more) (as_dict w) dimensions a in
    inl (
      omega (arith, answers),
      refl,
      bounded,
      composite-Within one fraction (scores ∷ more) w a sums,
    )

all-Rated :
    (one : ℕ) (w : ScoringWeights) (results : List Result) (cs : List CandidateSpec)
    → ScoredGroups one (scores_by_candidate results [])
    → All (λ c. c.dimension_scores ≡ []) cs
    → validate_sum w ≡ true
    → All
        (Rated one results)
        (with_composites w (all_scored one (scores_by_candidate results []) cs))
unfolding lookup
all-Rated one w results [] g fresh sums = tt
all-Rated one w results (c ∷ cs) g (h, fresh) sums =
    let groups = scores_by_candidate results [] in
    (
      with_scores-Rated one results (scores_of (lookup c.index groups)) c w
          (length-scores_by_candidate c.index results [] ∙ omega arith)
          (scores_of-lookup one c.index groups g) h sums,
      all-Rated one w results cs g fresh sums,
    )

reranked-All :
    (P : CandidateSpec → Type 0) (wins : List (ℕ × ℕ)) (k : ℕ) (cs : List CandidateSpec)
    → All P cs
    → All P (reranked wins k cs)
unfolding reranked
reranked-All P [] k cs a = a
reranked-All P (win ∷ wins) k cs a =
    All-append P (sort_desc (below (win ∷ wins)) (take k cs)) (drop k cs)
      (All-sort_desc P (below (win ∷ wins)) (take k cs) (All-take P k cs a)) (All-drop P k cs a)

rank-All :
    (P : CandidateSpec → Type 0) (verdict : Judge) (k : ℕ) (cs : List CandidateSpec)
    → All P cs
    → All P (rank verdict k cs)
unfolding rank merge_rankings
rank-All P verdict k cs a =
    let sorted = sort_desc lower cs in
    let top_k = min k (length sorted) in
    let kept = All-sort_desc P lower cs a in
    elim (Bool-cases (leb 2 top_k)) [
      | inr few ↦ rw few kept
      | inl enough ↦ rw enough (
          reranked-All P (win_counts (pairwise_rank_top_k verdict (take top_k sorted)) []) top_k
            sorted kept)
    ]

-- By weights in whole hundredths that pass `validate_sum`, and with a judge unless all are asked,
-- candidates without scores are scored, whatever the judges answer. Each candidate for which some
-- judge has answered gets a score between 1.0 and 5.0 for each of the twelve dimensions, and a
-- composite score between the same bounds; one for which none has gets no scores and the composite
-- score 0.
pub score_candidates-Rated :
    (s : Scorer) (w : ScoringWeights) (candidates : List CandidateSpec) (models : List String)
    → models_of s ≡ some models
    → All (λ c. c.dimension_scores ≡ []) candidates
    → validate_sum w ≡ true
    → (scored : List CandidateSpec) × (score_candidates s w candidates ≡ some scored)
      × All (Rated s.one (results_of s models candidates)) scored
unfolding score_candidates score_by pointwise_score_all
score_candidates-Rated s w candidates models present fresh sums =
    let results = results_of s models candidates in
    let scored = with_composites w (all_scored s.one (scores_by_candidate results []) candidates) in
    (
      rank s.verdict s.pairwise_top_k scored,
      ap (score_by s w candidates) present,
      rank-All (Rated s.one results) s.verdict s.pairwise_top_k scored (
          all-Rated s.one w results candidates
            (scores_by_candidate-Scored s.one results [] (results_of-Scored s models candidates) tt)
            fresh sums),
    )

-- The weights of every type of customer sum to one.
pub get_preset-sum : (customer : CustomerType) → validate_sum (get_preset customer) ≡ true
get_preset-sum CustomerType.bank = refl
get_preset-sum CustomerType.si = refl
get_preset-sum CustomerType.bpo = refl
get_preset-sum CustomerType.saas = refl
get_preset-sum CustomerType.default_type = refl
