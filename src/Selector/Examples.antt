-- ===== src/Selector/Examples.antt =====
-- Two candidates and a policy that prefers the second one.
use native.Mathlib.Nat.{mul-le-mul_left}
use reinforce_spec.Prelude.{
  ℕ, ◌+◌, ◌-◌, ◌*◌, ◌/◌, ◌≡◌, ◌<◌, refl, [], ◌∷◌, Option, some, length, inl, arith,
}
use reinforce_spec.Types.{CandidateSpec, SpecFormat, SelectionMethod, DegradationLevel}
use reinforce_spec.Selector.Defs.{
  PpoPolicy, Floats, Rounds, HybridSelector, at_place, select, apply_degradation,
}
use reinforce_spec.Selector.Best.{Best, select-without_policy}
use reinforce_spec.Selector.Blending.{Undominated, hybrid-Undominated}

abbrev spec : ℕ → ℕ → CandidateSpec
spec index score = record {
  index = index;
  content = "text";
  format = SpecFormat.json;
  source_model = "";
  dimension_scores = ("security", score) ∷ [];
  composite_score = score;
}

abbrev policy : PpoPolicy
policy = record { predict = λ obs. (1, 7); get_action_probabilities = λ obs. 3 ∷ 7 ∷ [] }

-- Floats that round to tens.
abbrev floats : Floats
floats = record {
  quotient = λ x most. x / 10;
  single = λ p. p;
  reduced = λ w x y. 0;
  rest_of = λ w. 10 - w;
  times = λ w x. w * (x / 10);
  plus = λ x y. x + y;
}

rounds : Rounds floats
rounds = record {
  quotient-le = λ x y most h. omega (arith, h);
  times-le = λ w x y h. mul-le-mul_left {m = x / 10} {n = y / 10} w (omega (arith, h));
  plus-le = λ x y u v h g. omega (arith, h, g);
}

abbrev selector : Option PpoPolicy → DegradationLevel → HybridSelector
selector present level = record {
  policy = present;
  floats = floats;
  one = 10;
  rl_weight = 5;
  confidence_threshold = 3;
  degradation_level = level;
}

abbrev blending : HybridSelector
blending = selector (some policy) DegradationLevel.l0_full

abbrev fallback : HybridSelector
fallback = selector (some policy) DegradationLevel.l2_fallback

degraded :
    apply_degradation fallback.degradation_level SelectionMethod.rl_only
    ≡ SelectionMethod.scoring_only
unfolding apply_degradation
degraded = refl

select-without_policy_example :
    (chosen : CandidateSpec) × (select fallback SelectionMethod.rl_only (spec 0 40 ∷ spec 1 30 ∷ [])
      ≡ some chosen)
    × Best fallback
        (apply_degradation fallback.degradation_level SelectionMethod.rl_only)
        (spec 0 40)
        (spec 1 30 ∷ [])
        chosen
select-without_policy_example =
    select-without_policy fallback SelectionMethod.rl_only (spec 0 40) (spec 1 30) [] (inl degraded)
      rounds

undegraded :
    apply_degradation blending.degradation_level SelectionMethod.hybrid ≡ SelectionMethod.hybrid
unfolding apply_degradation
undegraded = refl

hybrid-Undominated_example :
    (i : ℕ) × (i < length (spec 0 40 ∷ spec 1 30 ∷ []))
    × (select blending SelectionMethod.hybrid (spec 0 40 ∷ spec 1 30 ∷ [])
        ≡ some (at_place (spec 0 40) (spec 1 30 ∷ []) i))
    × Undominated blending (spec 0 40) (spec 1 30 ∷ []) i
hybrid-Undominated_example =
    hybrid-Undominated blending (spec 0 40) (spec 1 30) [] undegraded rounds
