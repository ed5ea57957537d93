-- ===== src/Calibration/Anchors.antt =====
-- What the calibration by anchors does to the scores of a judge.
use reinforce_spec.Prelude.{
  ℕ, ◌+◌, ◌*◌, suc, length, ◌≤◌, ◌<◌, ◌≡◌, inl, inr, refl, sym, ap, ◌∙◌, Bool, true, false, String,
  List, [], ◌∷◌, none, some, ltb, arith, ◌==◌, if◌then◌else◌, string_eq, Bool-cases,
}
use mathlib.Core.Option.{none-ne-some, some_inj}
use native.Mathlib.Nat.{mul-le-mul_right}
use reinforce_spec.Prelude.Dict.{lookup, insert, lookup-insert}
use reinforce_spec.Scoring.{dimensions}
use reinforce_spec.Calibration.Defs.{
  result_of, Fraction, CalibrationAnchor, CalibrationResult, anchor_pairs, human_total, judge_total,
  scale_of, factor, scaled, calibrate_anchor_based, clamped, or_one, or_zero, apply_calibration,
}

abbrev pub member : String → List String → Bool
member d [] = false
member d (j ∷ ds) = if j == d then true else member d ds

-- The sum of the judge's scores of the anchors, each by the numerator of the factor.
abbrev pub numerators_total : Fraction → List (ℕ × ℕ) → ℕ
numerators_total f [] = 0
numerators_total f ((human, judge) ∷ rest) = judge * f.numerator + numerators_total f rest

numerators-total :
    (f : Fraction) (pairs : List (ℕ × ℕ))
    → numerators_total f pairs ≡ judge_total pairs * f.numerator
numerators-total f [] = omega arith
numerators-total f ((human, judge) ∷ rest) = omega (arith, numerators-total f rest)

module _ (anchors : List CalibrationAnchor) (scores : List (String × List (String × ℕ))) where
  scaled-kept :
      (d : String) (ds : List String) (factors : List (String × Fraction))
      → lookup d factors ≡ some (factor anchors scores d)
      → lookup d (scaled anchors scores ds factors) ≡ some (factor anchors scores d)
  scaled-kept d [] factors there = there
  scaled-kept d (j ∷ ds) factors there =
      scaled-kept d ds (insert j (factor anchors scores j) factors) (
        lookup-insert j d (factor anchors scores j) factors ∙ elim (Bool-cases (j == d)) [
          | inl same ↦
              rw same (ap (λ k. some (factor anchors scores k)) ((string_eq.same_iff j d).0 same))
          | inr other ↦ rw other there
        ])

  scaled-found :
      (d : String) (ds : List String) (factors : List (String × Fraction))
      → member d ds ≡ true
      → lookup d (scaled anchors scores ds factors) ≡ some (factor anchors scores d)
  scaled-found d [] factors in_list = grind (arith, in_list)
  scaled-found d (j ∷ ds) factors in_list =
      let next = insert j (factor anchors scores j) factors in
      elim (Bool-cases (j == d)) [
        | inl same ↦ scaled-kept d ds next (
            lookup-insert j d (factor anchors scores j) factors
            ∙ rw same (ap (λ k. some (factor anchors scores k)) ((string_eq.same_iff j d).0 same)))
        | inr other ↦
            scaled-found d ds next (ap (λ b. if b then true else member d ds) (sym other) ∙ in_list)
      ]

-- A factor matches the anchors: by it, the judge's scores of them sum up to the human ones.
abbrev pub Matches : List (ℕ × ℕ) → Fraction → Type 0
Matches pairs f =
    (0 < f.denominator)
    × (0 < judge_total pairs → numerators_total f pairs ≡ human_total pairs * f.denominator)

scale_of-Matches : (pairs : List (ℕ × ℕ)) → Matches pairs (scale_of pairs)
unfolding scale_of
scale_of-Matches pairs = elim (Bool-cases (ltb 0 (judge_total pairs))) [
  | inl some_score ↦ rw some_score (
    ground arith,
    λ positive. grind (
      arith,
      numerators-total (record { numerator = human_total pairs; denominator = judge_total pairs })
          pairs,
    ),
  )
  | inr no_score ↦ rw no_score (omega arith, λ positive. ground (arith, no_score))
]

abbrev pub Within : ℕ → Fraction → Type 0
Within one f = (one * f.denominator ≤ f.numerator) × (f.numerator ≤ 5 * (one * f.denominator))

clamped-Within :
    (one : ℕ) (scale : Fraction) (offset score : ℕ) → Within one (clamped one scale offset score)
clamped-Within one scale offset score = (omega arith, omega arith)

clamped-le :
    (one : ℕ) (scale : Fraction) (offset : ℕ) {x y : ℕ}
    → x ≤ y
    → (clamped one scale offset x).numerator ≤ (clamped one scale offset y).numerator
clamped-le one scale offset {x} {y} le =
    omega (arith, mul-le-mul_right {m = x} {n = y} scale.numerator le)

apply-lookup :
    (one : ℕ) (r : CalibrationResult) (d : String) (s : List (String × ℕ)) (x : ℕ)
    → lookup d s ≡ some x
    → lookup d (apply_calibration one r s)
      ≡ some (clamped one (or_one (lookup d r.scaling_factors)) (or_zero (lookup d r.offset)) x)
unfolding apply_calibration lookup
apply-lookup one r d [] x e = absurd (none-ne-some x e)
apply-lookup one r d ((j, score) ∷ rest) x e = elim (Bool-cases (j == d)) [
  | inl same ↦
      let j_is_d : j ≡ d = (string_eq.same_iff j d).0 same in
      let score_is_x : score ≡ x =
        some_inj.0 (ap (λ b. if b then some score else lookup d rest) (sym same) ∙ e) in
      rw (same, j_is_d, score_is_x) refl
  | inr other ↦ rw other (
      apply-lookup one r d rest x
        (ap (λ b. if b then some score else lookup d rest) (sym other) ∙ e))
]

-- Scores of one dimension after calibration: a lower one is not above a higher one, and both are
-- between 1.0 and 5.0.
abbrev pub Calibrated : ℕ → String → List (String × Fraction) → List (String × Fraction) → Type 0
Calibrated one d s t =
    (a : Fraction) × (b : Fraction) × (lookup d s ≡ some a)
    × (lookup d t ≡ some b)
    × (a.denominator ≡ b.denominator)
    × (0 < a.denominator)
    × (a.numerator ≤ b.numerator)
    × Within one a
    × Within one b

abbrev pub Fitted : String → List (String × Fraction) → List (ℕ × ℕ) → Type 0
Fitted d factors pairs =
    (f : Fraction) × (lookup d factors ≡ some f)
    × (0 < f.denominator)
    × (numerators_total f pairs ≡ human_total pairs * f.denominator)

calibrate-some :
    (anchor : CalibrationAnchor) (anchors : List CalibrationAnchor)
    (scores : List (String × List (String × ℕ)))
    → calibrate_anchor_based (record { anchors = anchor ∷ anchors }) scores
      ≡ some (result_of (anchor ∷ anchors) scores)
unfolding calibrate_anchor_based
calibrate-some anchor anchors scores =
    let result = result_of (anchor ∷ anchors) scores in
    let positive : ltb 0 (suc (length anchors)) ≡ true = ground arith in
    ap (λ b. if b then some result else none) positive

-- For a dimension in which the judge has given the anchors a score above zero: calibration succeeds
-- with a factor by which the judge's scores of the anchors sum up to the human scores of them; and by
-- its result, of two scores in that dimension that are in order, both come out between 1.0 and 5.0
-- and in the same order.
pub calibrate-Fitted :
    (one : ℕ) (anchor : CalibrationAnchor) (anchors : List CalibrationAnchor)
    (scores : List (String × List (String × ℕ))) (d : String)
    → member d dimensions ≡ true
    → 0 < judge_total (anchor_pairs d (anchor ∷ anchors) scores)
    → (s t : List (String × ℕ)) (x y : ℕ) → lookup d s ≡ some x
    → lookup d t ≡ some y
    → x ≤ y
    → (r : CalibrationResult) × (calibrate_anchor_based
          (record { anchors = anchor ∷ anchors })
          scores
        ≡ some r)
      × Fitted d r.scaling_factors (anchor_pairs d (anchor ∷ anchors) scores)
      × Calibrated one d (apply_calibration one r s) (apply_calibration one r t)
unfolding result_of
calibrate-Fitted one anchor anchors scores d named judged s t x y at_s at_t le =
    let all = anchor ∷ anchors in
    let r = result_of all scores in
    let f = factor all scores d in
    let offset = or_zero (lookup d r.offset) in
    let found = scaled-found all scores d dimensions [] named in
    let matches = scale_of-Matches (anchor_pairs d all scores) in
    let calibrated = λ (z : ℕ). ap (λ o. some (clamped one (or_one o) offset z)) found in
    (
      r,
      calibrate-some anchor anchors scores,
      (f, found, matches.0, matches.1 judged),
      (
        clamped one f offset x,
        clamped one f offset y,
        apply-lookup one r d s x at_s ∙ calibrated x,
        apply-lookup one r d t y at_t ∙ calibrated y,
        refl,
        matches.0,
        clamped-le one f offset le,
        clamped-Within one f offset x,
        clamped-Within one f offset y,
      ),
    )
