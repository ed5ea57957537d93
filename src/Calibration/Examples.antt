-- ===== src/Calibration/Examples.antt =====
-- Two anchors, and a judge whose scores of them are too high in one dimension.
use reinforce_spec.Prelude.{ℕ, ◌≡◌, refl, String, List, [], ◌∷◌, some, arith}
use reinforce_spec.Prelude.Dict.{lookup}
use reinforce_spec.Calibration.Defs.{
  CalibrationAnchor, CalibrationResult, calibrate_anchor_based, apply_calibration, anchor_pairs,
}
use reinforce_spec.Calibration.Anchors.{calibrate-Fitted, Fitted, Calibrated}

abbrev anchor : String → ℕ → CalibrationAnchor
anchor id score = record {
  anchor_id = id;
  spec_content = "a spec";
  known_scores = ("finops_cost", score) ∷ [];
}

abbrev scores : List (String × List (String × ℕ))
scores =
    ("high", ("finops_cost", 50) ∷ [])
    ∷ ("low", ("finops_cost", 30) ∷ ("identity_access", 20) ∷ [])
    ∷ []

abbrev anchors : List CalibrationAnchor
anchors = anchor "low" 20 ∷ anchor "high" 40 ∷ []

calibrate-Fitted_example :
    (r : CalibrationResult) × (calibrate_anchor_based (record { anchors = anchors }) scores
      ≡ some r)
    × Fitted "finops_cost" r.scaling_factors (anchor_pairs "finops_cost" anchors scores)
    × Calibrated 10 "finops_cost"
        (apply_calibration 10 r (("finops_cost", 20) ∷ []))
        (apply_calibration 10 r (("finops_cost", 40) ∷ []))
unfolding anchor_pairs lookup
calibrate-Fitted_example =
    calibrate-Fitted 10 (anchor "low" 20) (anchor "high" 40 ∷ []) scores "finops_cost" refl
      (omega arith) (("finops_cost", 20) ∷ []) (("finops_cost", 40) ∷ []) 20 40 refl refl
      (omega arith)
