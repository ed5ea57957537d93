-- ===== src/Selector/Defs.antt =====
-- A policy of stable-baselines3 is its two predictions. The floats of `_select_hybrid` are not
-- negative: such a number is its place in the order of these floats, 0 for 0.0, and the operations on
-- them belong to NumPy. Composite scores count in a unit, and `one` of them are 1.0.
use reinforce_spec.Prelude.{
  ℕ, zero, suc, ◌%◌, ◌≤◌, max, List, [], ◌∷◌, Option, none, some, length, ltb, nat_beq,
  if◌then◌else◌, get_or,
}
use reinforce_spec.Types.{CandidateSpec, SelectionMethod, DegradationLevel}
use reinforce_spec.Environment.Features.{build_observation}

-- `quotient` is of two composite scores, as a float32, and `single` a probability as a float32.
-- `reduced` is the weight times confidence over threshold, `rest_of` one minus a weight; `times` and
-- `plus` are the products and the sum of `blended`.
pub record Floats : Type 0 where
  pub quotient : ℕ → ℕ → ℕ
  pub single : ℕ → ℕ
  pub reduced : ℕ → ℕ → ℕ → ℕ
  pub rest_of : ℕ → ℕ
  pub times : ℕ → ℕ → ℕ
  pub plus : ℕ → ℕ → ℕ

-- Rounding keeps the order: none of these operations makes of a greater number a smaller one.
pub record Rounds (f : Floats) : Type 0 where
  pub quotient-le : (x y most : ℕ) → x ≤ y → f.quotient x most ≤ f.quotient y most
  pub times-le : (w x y : ℕ) → x ≤ y → f.times w x ≤ f.times w y
  pub plus-le : (x y u v : ℕ) → x ≤ y → u ≤ v → f.plus x u ≤ f.plus y v

pub record PpoPolicy : Type 0 where
  pub predict : List ℕ → ℕ × ℕ
  pub get_action_probabilities : List ℕ → List ℕ

pub record HybridSelector : Type 0 where
  pub policy : Option PpoPolicy
  pub floats : Floats
  pub one : ℕ
  pub rl_weight : ℕ
  pub confidence_threshold : ℕ
  pub degradation_level : DegradationLevel

unfoldable pub set_degradation_level : DegradationLevel → HybridSelector → HybridSelector
set_degradation_level level s = record s { degradation_level = level }

-- `max(candidates, key=...)`: the first of those with the greatest score.
unfoldable pub best_of : CandidateSpec → List CandidateSpec → CandidateSpec
best_of best [] = best
best_of best (c ∷ cs) = best_of (if ltb best.composite_score c.composite_score then c else best) cs

-- `argmax`: the first place of the greatest entry, where `best` with `top` leads so far and `i` is
-- the next place.
unfoldable pub argmax_from : ℕ → ℕ → ℕ → List ℕ → ℕ
argmax_from best top i [] = best
argmax_from best top i (x ∷ xs) = argmax_from (if ltb top x then i else best) (max top x) (suc i) xs

unfoldable pub argmax : List ℕ → ℕ
unfolding argmax_from
argmax [] = 0
argmax (x ∷ xs) = argmax_from 0 x 1 xs

abbrev pub greatest : List ℕ → ℕ
greatest [] = 0
greatest (x ∷ xs) = max x (greatest xs)

-- `_apply_degradation`
unfoldable pub apply_degradation : DegradationLevel → SelectionMethod → SelectionMethod
apply_degradation DegradationLevel.l0_full method = method
apply_degradation DegradationLevel.l1_reduced method = method
apply_degradation DegradationLevel.l2_fallback method = SelectionMethod.scoring_only
apply_degradation DegradationLevel.l3_emergency method = SelectionMethod.scoring_only

-- `rl_scores`: the probabilities of the candidates, zero past their end.
abbrev pub padded : (ℕ → ℕ) → ℕ → List ℕ → List ℕ
padded single zero probs = []
padded single (suc n) [] = 0 ∷ padded single n []
padded single (suc n) (p ∷ probs) = single p ∷ padded single n probs

abbrev pub effective_weight : HybridSelector → ℕ → ℕ
effective_weight s rl_confidence =
    if ltb rl_confidence s.confidence_threshold
    then s.floats.reduced s.rl_weight rl_confidence s.confidence_threshold
    else s.rl_weight

abbrev pub max_score : HybridSelector → List ℕ → ℕ
max_score s scores = if nat_beq (greatest scores) 0 then s.one else greatest scores

-- One entry of `blended`.
abbrev pub blend : Floats → ℕ → ℕ → ℕ → ℕ → ℕ
blend f weight most score rl_score =
    f.plus (f.times (f.rest_of weight) (f.quotient score most)) (f.times weight rl_score)

unfoldable pub blended : Floats → ℕ → ℕ → List ℕ → List ℕ → List ℕ
blended f weight most (score ∷ scores) (p ∷ rl_scores) =
    blend f weight most score p ∷ blended f weight most scores rl_scores
blended f weight most [] rl_scores = []
blended f weight most (score ∷ scores) [] = []

abbrev pub composites : List CandidateSpec → List ℕ
composites [] = []
composites (c ∷ cs) = c.composite_score ∷ composites cs

abbrev pub probabilities : HybridSelector → List CandidateSpec → List ℕ
probabilities s candidates = elim s.policy [
  | none ↦ []
  | some policy ↦ policy.get_action_probabilities (build_observation s.one candidates 5)
]

abbrev pub rl_scores : HybridSelector → List CandidateSpec → List ℕ
rl_scores s candidates = padded s.floats.single (length candidates) (probabilities s candidates)

unfoldable pub blended_scores : HybridSelector → List CandidateSpec → List ℕ
unfolding blended
blended_scores s candidates =
    let scores = composites candidates in
    let rl = rl_scores s candidates in
    blended s.floats (effective_weight s (greatest rl)) (max_score s scores) scores rl

-- The place of an element, the first one if there is no such place.
abbrev pub at_place : CandidateSpec → List CandidateSpec → ℕ → CandidateSpec
at_place c cs place = get_or (c ∷ cs) place c

unfoldable pub select_hybrid : HybridSelector → CandidateSpec → List CandidateSpec → CandidateSpec
unfolding blended_scores argmax
select_hybrid s c cs = at_place c cs (argmax (blended_scores s (c ∷ cs)))

abbrev pub rl_choice :
    HybridSelector → Option PpoPolicy → CandidateSpec → List CandidateSpec → CandidateSpec
rl_choice s none c cs = best_of c cs
rl_choice s (some policy) c cs =
    at_place c cs ((policy.predict (build_observation s.one (c ∷ cs) 5)).0 % length (c ∷ cs))

unfoldable pub select_by_rl : HybridSelector → CandidateSpec → List CandidateSpec → CandidateSpec
select_by_rl s c cs = rl_choice s s.policy c cs

unfoldable pub select_with :
    HybridSelector → SelectionMethod → CandidateSpec → List CandidateSpec → CandidateSpec
unfolding select_by_rl select_hybrid
select_with s SelectionMethod.scoring_only c cs = best_of c cs
select_with s SelectionMethod.rl_only c cs = select_by_rl s c cs
select_with s SelectionMethod.hybrid c cs = select_hybrid s c cs

-- `select`: none is the ValueError for no candidates.
unfoldable pub select : HybridSelector → SelectionMethod → List CandidateSpec → Option CandidateSpec
unfolding apply_degradation select_with
select s method [] = none
select s method (c ∷ []) = some c
select s method (c ∷ d ∷ cs) =
    some (select_with s (apply_degradation s.degradation_level method) c (d ∷ cs))
