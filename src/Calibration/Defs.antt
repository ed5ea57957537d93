-- ===== src/Calibration/Defs.antt =====
-- The anchors, their factors, and the calibration of scores by them. A score counts in units, `one` of
-- which are 1.0; a factor and a calibrated score are fractions, which the code rounds to floats.
use reinforce_spec.Prelude.{
  ℕ, ◌+◌, ◌-◌, ◌*◌, Bool, String, List, [], ◌∷◌, ◌++◌, Option, none, some, length, min, max, ltb,
  if◌then◌else◌, string_eq,
}
use reinforce_spec.Prelude.Dict.{lookup, insert}
use reinforce_spec.Scoring.{dimensions}

pub record Fraction : Type 0 where
  pub numerator : ℕ
  pub denominator : ℕ

pub record CalibrationAnchor : Type 0 where
  pub anchor_id : String
  pub spec_content : String
  pub known_scores : List (String × ℕ)

pub record CalibrationResult : Type 0 where
  pub scaling_factors : List (String × Fraction)
  pub offset : List (String × ℕ)
  pub calibration_error : Fraction

-- `ScoreCalibrator`, once its anchors are given.
pub record ScoreCalibrator : Type 0 where
  pub anchors : List CalibrationAnchor

abbrev pub has_anchors : ScoreCalibrator → Bool
has_anchors c = ltb 0 (length c.anchors)

abbrev pub anchor_count : ScoreCalibrator → ℕ
anchor_count c = length c.anchors

-- `[a.spec_content for a in self._anchors]`
abbrev pub contents : List CalibrationAnchor → List String
contents [] = []
contents (a ∷ rest) = a.spec_content ∷ contents rest

abbrev pub get_anchor_specs : ScoreCalibrator → List String
get_anchor_specs c = contents c.anchors

-- The human and the judge score of an anchor, if both are there.
abbrev pub pair_of : Option ℕ → Option ℕ → List (ℕ × ℕ)
pair_of (some human) (some judge) = (human, judge) ∷ []
pair_of none judge = []
pair_of (some human) none = []

abbrev pub judged_pair : String → CalibrationAnchor → Option (List (String × ℕ)) → List (ℕ × ℕ)
judged_pair d anchor none = []
judged_pair d anchor (some judged) = pair_of (lookup d anchor.known_scores) (lookup d judged)

unfoldable pub anchor_pairs :
    String → List CalibrationAnchor → List (String × List (String × ℕ)) → List (ℕ × ℕ)
anchor_pairs d [] scores = []
anchor_pairs d (anchor ∷ rest) scores =
    judged_pair d anchor (lookup anchor.anchor_id scores) ++ anchor_pairs d rest scores

abbrev pub human_total : List (ℕ × ℕ) → ℕ
human_total [] = 0
human_total ((human, judge) ∷ rest) = human + human_total rest

abbrev pub judge_total : List (ℕ × ℕ) → ℕ
judge_total [] = 0
judge_total ((human, judge) ∷ rest) = judge + judge_total rest

-- The quotient of the two means: they are of as many scores. 1.0 where there are none, or the mean of
-- the judge is not positive.
unfoldable pub scale_of : List (ℕ × ℕ) → Fraction
scale_of pairs =
    if ltb 0 (judge_total pairs)
    then record { numerator = human_total pairs; denominator = judge_total pairs }
    else record { numerator = 1; denominator = 1 }

abbrev pub distance : ℕ → ℕ → ℕ
distance x y = (x - y) + (y - x)

-- `abs(h - j * scale)` for every pair.
abbrev pub errors_of : Fraction → List (ℕ × ℕ) → List Fraction
errors_of scale [] = []
errors_of scale ((human, judge) ∷ rest) =
    record {
      numerator = distance (human * scale.denominator) (judge * scale.numerator);
      denominator = scale.denominator;
    }
    ∷ errors_of scale rest

abbrev pub sum_of : List Fraction → Fraction
sum_of [] = record { numerator = 0; denominator = 1 }
sum_of (e ∷ es) =
    let rest = sum_of es in
    record {
      numerator = e.numerator * rest.denominator + rest.numerator * e.denominator;
      denominator = e.denominator * rest.denominator;
    }

-- `sum(errors) / len(errors) if errors else 0.0`
abbrev pub mean_error : List Fraction → Fraction
mean_error [] = record { numerator = 0; denominator = 1 }
mean_error (e ∷ es) =
    let total = sum_of (e ∷ es) in
    record { numerator = total.numerator; denominator = total.denominator * length (e ∷ es) }

module _ (anchors : List CalibrationAnchor) (scores : List (String × List (String × ℕ))) where
  abbrev pub factor : String → Fraction
  factor d = scale_of (anchor_pairs d anchors scores)

  -- The loop over the dimensions: the factors, the offsets and the errors.
  abbrev pub scaled : List String → List (String × Fraction) → List (String × Fraction)
  scaled [] factors = factors
  scaled (d ∷ ds) factors = scaled ds (insert d (factor d) factors)

  abbrev pub offsets : List String → List (String × ℕ) → List (String × ℕ)
  offsets [] found = found
  offsets (d ∷ ds) found = offsets ds (insert d 0 found)

  abbrev pub errors : List String → List Fraction
  errors [] = []
  errors (d ∷ ds) = errors_of (factor d) (anchor_pairs d anchors scores) ++ errors ds

unfoldable pub result_of :
    List CalibrationAnchor → List (String × List (String × ℕ)) → CalibrationResult
result_of anchors scores = record {
  scaling_factors = scaled anchors scores dimensions [];
  offset = offsets anchors scores dimensions [];
  calibration_error = mean_error (errors anchors scores dimensions);
}

-- None is a CalibrationError.
unfoldable pub calibrate_anchor_based :
    ScoreCalibrator → List (String × List (String × ℕ)) → Option CalibrationResult
calibrate_anchor_based c scores = if has_anchors c then some (result_of c.anchors scores) else none

-- `max(1.0, min(5.0, score * scale + offset))`
abbrev pub clamped : ℕ → Fraction → ℕ → ℕ → Fraction
clamped one scale offset score = record {
  numerator =
      max (one * scale.denominator) (
        min (5 * (one * scale.denominator)) (score * scale.numerator + offset * scale.denominator));
  denominator = scale.denominator;
}

abbrev pub or_one : Option Fraction → Fraction
or_one none = record { numerator = 1; denominator = 1 }
or_one (some scale) = scale

abbrev pub or_zero : Option ℕ → ℕ
or_zero none = 0
or_zero (some offset) = offset

-- The scores are a dict: each dimension stands there once.
unfoldable pub apply_calibration :
    ℕ → CalibrationResult → List (String × ℕ) → List (String × Fraction)
apply_calibration one r [] = []
apply_calibration one r ((d, score) ∷ rest) =
    (d, clamped one (or_one (lookup d r.scaling_factors)) (or_zero (lookup d r.offset)) score)
    ∷ apply_calibration one r rest
