-- ===== src/Persistence/Tables.antt =====
-- The tables that the ORM classes declare, without generated identifiers and times that no query reads.
use reinforce_spec.Prelude.{ℕ, Bool, String, List, [], Option, string_eq, nat_eq}
use reinforce_spec.Types.{SpecFormat}

pub data Status : Type 0 where
  pending completed failed : Status

pub record EvaluationRequest : Type 0 where
  pub request_id : String
  pub description : String
  pub customer_type : Option String
  pub n_specs : ℕ
  pub created_at : ℕ
  pub completed_at : Option ℕ
  pub status : Status

pub record CandidateRow : Type 0 where
  pub request_id : String
  pub index_pos : ℕ
  pub spec_format : SpecFormat
  pub content : String
  pub source_model : String
  pub composite_score : ℕ
  pub is_selected : Bool

pub record DimensionRow : Type 0 where
  pub spec_id : String × ℕ
  pub dimension : String
  pub score : ℕ

pub record Feedback : Type 0 where
  pub request_id : String
  pub spec_id : Option (String × ℕ)
  pub rating : Option ℕ
  pub comment : Option String
  pub created_at : ℕ

pub record RlEpisode : Type 0 where
  pub request_id : String
  pub observation : List ℕ
  pub action : ℕ
  pub reward : ℕ
  pub created_at : ℕ

pub record AuditLog : Type 0 where
  pub event_type : String
  pub actor : String
  pub payload : List (String × String)
  pub created_at : ℕ

pub record IdempotencyKey : Type 0 where
  pub key : String
  pub response_json : String
  pub created_at : ℕ
  pub expires_at : ℕ

pub record Storage : Type 0 where
  pub idempotency_keys : List IdempotencyKey
  pub evaluation_requests : List EvaluationRequest
  pub candidate_specs : List CandidateRow
  pub dimension_scores : List DimensionRow
  pub feedback : List Feedback
  pub rl_episodes : List RlEpisode
  pub audit_log : List AuditLog

-- The tables after `create_all` on an empty database.
abbrev pub created : Storage
created = record {
  idempotency_keys = [];
  evaluation_requests = [];
  candidate_specs = [];
  dimension_scores = [];
  feedback = [];
  rl_episodes = [];
  audit_log = [];
}
