-- ===== src/Environment/Features.antt =====
-- Observations. Their entries are natural numbers of a tenth of the unit of scores, of which `one`
-- make the score 1.0: `score / 5.0` is `2 * score`, and 1.0 is `10 * one`.
use reinforce_spec.Prelude.{
  ℕ, suc, ◌+◌, ◌*◌, ◌-◌, Bool, true, false, String, List, [], ◌∷◌, ◌++◌, take, replicate, length,
  set, ltb, if◌then◌else◌, string_eq,
}
use Prim.Native.Nat.{Ordering}
use Prim.Native.String.{len, compare}
use reinforce_spec.Prelude.Sort.{sort_desc}
use reinforce_spec.Prelude.Dict.{insert}
use reinforce_spec.Types.{CandidateSpec, SpecFormat}

abbrev pub n_dimensions : ℕ
n_dimensions = 12

abbrev pub per_candidate_features : ℕ
per_candidate_features = 19

abbrev pub format_index : SpecFormat → ℕ
format_index SpecFormat.text = 0
format_index SpecFormat.json = 1
format_index SpecFormat.yaml = 2
format_index SpecFormat.markdown = 3
format_index SpecFormat.other = 4

-- `{ds.dimension: ds.score for ds in ...}`: a later score of a dimension replaces an earlier one.
abbrev pub score_map : List (String × ℕ) → List (String × ℕ) → List (String × ℕ)
score_map m [] = m
score_map m ((dimension, score) ∷ rest) = score_map (insert dimension score m) rest

-- The order of `sorted` on dimension names.
abbrev pub sorts_later : String × ℕ → String × ℕ → Bool
sorts_later x y = elim (compare y.0 x.0) [ Ordering.lt ↦ true | _ ↦ false ]

-- `enumerate(sorted(...))` into the features, from place `i` on.
abbrev pub fill : ℕ → List (String × ℕ) → List ℕ → List ℕ
fill i [] features = features
fill i ((dimension, score) ∷ rest) features = fill (suc i) rest (set features i (2 * score))

abbrev pub length_bucket : ℕ → ℕ → ℕ
length_bucket one n = if ltb n 500 then 0 else (if ltb n 2000 then 5 * one else 10 * one)

-- `_candidate_to_features`
unfoldable pub candidate_to_features : ℕ → CandidateSpec → List ℕ
candidate_to_features one candidate =
    let scores = sort_desc sorts_later (score_map [] candidate.dimension_scores) in
    let filled = fill 0 scores (replicate per_candidate_features 0) in
    let composite = set filled n_dimensions (2 * candidate.composite_score) in
    let bucket = set composite (n_dimensions + 1) (length_bucket one (len candidate.content)) in
    set bucket (n_dimensions + 2 + format_index candidate.format) (10 * one)

-- The slots of the candidates in a row.
unfoldable pub slots : ℕ → List CandidateSpec → List ℕ
unfolding candidate_to_features
slots one [] = []
slots one (c ∷ cs) = candidate_to_features one c ++ slots one cs

-- The first `max_candidates` candidates fill a slot each; the other slots stay zero.
unfoldable pub build_observation : ℕ → List CandidateSpec → ℕ → List ℕ
unfolding slots
build_observation one candidates max_candidates =
    let shown = take max_candidates candidates in
    slots one shown ++ replicate ((max_candidates - length shown) * per_candidate_features) 0
