-- ===== src/Scoring/Weights.antt =====
-- The dimensions and their weights, from reinforce_spec/types.py and
-- reinforce_spec/scoring/presets.py. Weights count in whole hundredths: then
-- the tolerance of 1e-6 accepts no other sum than 1.0.
use reinforce_spec.Prelude.{ℕ, ◌+◌, Bool, String, List, [], ◌∷◌, nat_beq}

pub record ScoringWeights : Type 0 where
  pub compliance_regulatory : ℕ
  pub identity_access : ℕ
  pub deployment_topology : ℕ
  pub data_governance : ℕ
  pub observability_monitoring : ℕ
  pub incident_workflow : ℕ
  pub security_architecture : ℕ
  pub vendor_model_abstraction : ℕ
  pub scalability_performance : ℕ
  pub finops_cost : ℕ
  pub developer_experience : ℕ
  pub onboarding_production_path : ℕ

abbrev pub as_dict : ScoringWeights → List (String × ℕ)
as_dict w =
    ("compliance_regulatory", w.compliance_regulatory)
    ∷ ("identity_access", w.identity_access)
    ∷ ("deployment_topology", w.deployment_topology)
    ∷ ("data_governance", w.data_governance)
    ∷ ("observability_monitoring", w.observability_monitoring)
    ∷ ("incident_workflow", w.incident_workflow)
    ∷ ("security_architecture", w.security_architecture)
    ∷ ("vendor_model_abstraction", w.vendor_model_abstraction)
    ∷ ("scalability_performance", w.scalability_performance)
    ∷ ("finops_cost", w.finops_cost)
    ∷ ("developer_experience", w.developer_experience)
    ∷ ("onboarding_production_path", w.onboarding_production_path)
    ∷ []

abbrev pub total_of : List (String × ℕ) → ℕ
total_of [] = 0
total_of ((dimension, weight) ∷ rest) = weight + total_of rest

abbrev pub validate_sum : ScoringWeights → Bool
validate_sum w = nat_beq (total_of (as_dict w)) 100

-- The values of `Dimension`, in the order of the enumeration.
abbrev pub dimensions : List String
dimensions =
    "compliance_regulatory" ∷ "identity_access" ∷ "deployment_topology" ∷ "data_governance"
    ∷ "observability_monitoring" ∷ "incident_workflow" ∷ "security_architecture"
    ∷ "vendor_model_abstraction" ∷ "scalability_performance" ∷ "finops_cost"
    ∷ "developer_experience" ∷ "onboarding_production_path" ∷ []

pub data CustomerType : Type 0 where
  bank si bpo saas default_type : CustomerType

-- `PRESETS`, the default from the fields of `ScoringWeights`.
abbrev pub get_preset : CustomerType → ScoringWeights
get_preset CustomerType.default_type = record {
  compliance_regulatory = 10;
  identity_access = 9;
  deployment_topology = 9;
  data_governance = 8;
  observability_monitoring = 8;
  incident_workflow = 7;
  security_architecture = 10;
  vendor_model_abstraction = 8;
  scalability_performance = 9;
  finops_cost = 7;
  developer_experience = 8;
  onboarding_production_path = 7;
}
get_preset CustomerType.bank = record {
  compliance_regulatory = 14;
  identity_access = 11;
  deployment_topology = 6;
  data_governance = 12;
  observability_monitoring = 6;
  incident_workflow = 8;
  security_architecture = 14;
  vendor_model_abstraction = 6;
  scalability_performance = 6;
  finops_cost = 5;
  developer_experience = 5;
  onboarding_production_path = 7;
}
get_preset CustomerType.si = record {
  compliance_regulatory = 8;
  identity_access = 10;
  deployment_topology = 10;
  data_governance = 7;
  observability_monitoring = 8;
  incident_workflow = 7;
  security_architecture = 8;
  vendor_model_abstraction = 9;
  scalability_performance = 9;
  finops_cost = 6;
  developer_experience = 10;
  onboarding_production_path = 8;
}
get_preset CustomerType.bpo = record {
  compliance_regulatory = 8;
  identity_access = 12;
  deployment_topology = 7;
  data_governance = 9;
  observability_monitoring = 7;
  incident_workflow = 8;
  security_architecture = 9;
  vendor_model_abstraction = 7;
  scalability_performance = 10;
  finops_cost = 9;
  developer_experience = 6;
  onboarding_production_path = 8;
}
get_preset CustomerType.saas = record {
  compliance_regulatory = 7;
  identity_access = 8;
  deployment_topology = 6;
  data_governance = 6;
  observability_monitoring = 9;
  incident_workflow = 6;
  security_architecture = 8;
  vendor_model_abstraction = 8;
  scalability_performance = 14;
  finops_cost = 8;
  developer_experience = 12;
  onboarding_production_path = 8;
}
