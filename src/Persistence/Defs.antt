-- ===== src/Persistence/Defs.antt =====
-- A table is the list of its rows, and a write is none where the database raises an IntegrityError
-- for its primary or foreign key; each method commits by itself. Identifiers that the methods
-- generate, and times that no query reads, are left out. The identifier `{request_id}_{index}` of a
-- candidate is kept as its two parts.
use reinforce_spec.Prelude.{
  ℕ, ◌+◌, ◌*◌, Bool, true, false, not, ◌&&◌, ◌||◌, String, List, [], ◌∷◌, ◌++◌, Option, none, some,
  take, length, ltb, leb, if◌then◌else◌, ◌==◌, string_eq, nat_eq,
}
use reinforce_spec.Prelude.Sort.{sort_desc}
use reinforce_spec.Prelude.Counting.{filter}
pub use reinforce_spec.Persistence.Tables.{
  Status, EvaluationRequest, CandidateRow, DimensionRow, Feedback, RlEpisode, AuditLog,
  IdempotencyKey, Storage, created,
}

-- Idempotency keys.
abbrev pub is_live : String → ℕ → IdempotencyKey → Bool
is_live key now row = row.key == key && ltb now row.expires_at

abbrev pub first_response : List IdempotencyKey → Option String
first_response [] = none
first_response (row ∷ rows) = some row.response_json

unfoldable pub get_idempotent_response : ℕ → String → Storage → Option String
get_idempotent_response now key st = first_response (filter (is_live key now) st.idempotency_keys)

-- `INSERT ... ON CONFLICT DO UPDATE`
unfoldable pub upsert : IdempotencyKey → List IdempotencyKey → List IdempotencyKey
upsert row [] = row ∷ []
upsert row (old ∷ rows) =
    let rest = upsert row rows in if old.key == row.key then row ∷ rows else old ∷ rest

-- Times are seconds.
unfoldable pub set_idempotent_response : ℕ → String → String → ℕ → Storage → Storage
unfolding upsert
set_idempotent_response now key response_json ttl_hours st = record st {
  idempotency_keys =
      upsert
        (record {
          key = key;
          response_json = response_json;
          created_at = now;
          expires_at = now + ttl_hours * 3600;
        })
        st.idempotency_keys;
}

abbrev pub lives_on : ℕ → IdempotencyKey → Bool
lives_on now row = not (leb row.expires_at now)

-- The number of deleted rows comes with the tables.
unfoldable pub cleanup_expired_idempotency_keys : ℕ → Storage → ℕ × Storage
cleanup_expired_idempotency_keys now st = (
  length (filter (λ row. leb row.expires_at now) st.idempotency_keys),
  record st { idempotency_keys = filter (lives_on now) st.idempotency_keys },
)

-- Requests.
unfoldable pub has_request : String → List EvaluationRequest → Bool
has_request id [] = false
has_request id (row ∷ rows) = row.request_id == id || has_request id rows

unfoldable pub save_request : ℕ → String → ℕ → String → Option String → Storage → Option Storage
save_request now request_id n_specs description customer_type st =
    if has_request request_id st.evaluation_requests
    then none
    else some (record st {
      evaluation_requests =
          st.evaluation_requests
          ++ (record {
            request_id = request_id;
            description = description;
            customer_type = customer_type;
            n_specs = n_specs;
            created_at = now;
            completed_at = none;
            status = Status.pending;
          })
            ∷ [];
    })

-- `UPDATE ... WHERE request_id = ...`
unfoldable pub with_status : Status → ℕ → String → List EvaluationRequest → List EvaluationRequest
with_status status now id [] = []
with_status status now id (row ∷ rows) =
    (if row.request_id == id then record row { status = status; completed_at = some now } else row)
    ∷ with_status status now id rows

unfoldable pub complete_request : ℕ → String → Storage → Storage
unfolding with_status
complete_request now id st = record st {
  evaluation_requests = with_status Status.completed now id st.evaluation_requests;
}

unfoldable pub append_audit_log : ℕ → String → List (String × String) → String → Storage → Storage
append_audit_log now event_type payload actor st = record st {
  audit_log =
      st.audit_log
      ++ (record { event_type = event_type; actor = actor; payload = payload; created_at = now })
        ∷ [];
}

unfoldable pub fail_request : ℕ → String → String → Storage → Storage
unfolding with_status append_audit_log
fail_request now id error st =
    append_audit_log now "request_failed" (("request_id", id) ∷ ("error", error) ∷ []) "system"
      (record st { evaluation_requests = with_status Status.failed now id st.evaluation_requests })

abbrev pub first_request : List EvaluationRequest → Option EvaluationRequest
first_request [] = none
first_request (row ∷ rows) = some row

unfoldable pub get_request : String → Storage → Option EvaluationRequest
get_request id st = first_request (filter (λ row. row.request_id == id) st.evaluation_requests)

-- Candidates and their scores.
abbrev pub same_spec : String → ℕ → CandidateRow → Bool
same_spec request_id index row = row.request_id == request_id && row.index_pos == index

unfoldable pub has_spec : String → ℕ → List CandidateRow → Bool
has_spec request_id index [] = false
has_spec request_id index (row ∷ rows) =
    same_spec request_id index row || has_spec request_id index rows

unfoldable pub save_candidate : CandidateRow → Storage → Option Storage
unfolding has_spec has_request
save_candidate row st =
    if has_spec row.request_id row.index_pos st.candidate_specs
    then none
    else (if has_request row.request_id st.evaluation_requests
        then some (record st { candidate_specs = st.candidate_specs ++ row ∷ [] })
        else none)

abbrev pub dimension_rows : String × ℕ → List (String × ℕ) → List DimensionRow
dimension_rows spec_id [] = []
dimension_rows spec_id ((dimension, score) ∷ rest) =
    (record { spec_id = spec_id; dimension = dimension; score = score })
    ∷ dimension_rows spec_id rest

unfoldable pub save_dimension_scores : String × ℕ → List (String × ℕ) → Storage → Option Storage
unfolding has_spec
save_dimension_scores (request_id, index) [] st = some st
save_dimension_scores (request_id, index) (score ∷ scores) st =
    if has_spec request_id index st.candidate_specs
    then some (record st {
      dimension_scores = st.dimension_scores ++ dimension_rows (request_id, index) (score ∷ scores);
    })
    else none

abbrev pub lower_row : CandidateRow → CandidateRow → Bool
lower_row x y = ltb x.composite_score y.composite_score

unfoldable pub get_candidates_for_request : String → Storage → List CandidateRow
get_candidates_for_request id st =
    sort_desc lower_row (filter (λ row. row.request_id == id) st.candidate_specs)

-- Feedback, newest first.
unfoldable pub save_feedback :
    ℕ → String → Option ℕ → Option String → Option (String × ℕ) → Storage → Option Storage
save_feedback now request_id rating comment spec_id st =
    if has_request request_id st.evaluation_requests
    then some (record st {
      feedback =
          st.feedback
          ++ (record {
            request_id = request_id;
            spec_id = spec_id;
            rating = rating;
            comment = comment;
            created_at = now;
          })
            ∷ [];
    })
    else none

unfoldable pub get_feedback_for_request : String → Storage → List Feedback
get_feedback_for_request id st =
    sort_desc (λ x y. ltb x.created_at y.created_at)
      (filter (λ row. row.request_id == id) st.feedback)

-- Episodes, newest first.
unfoldable pub save_episode : ℕ → String → List ℕ → ℕ → ℕ → Storage → Option Storage
save_episode now request_id observation action reward st =
    if has_request request_id st.evaluation_requests
    then some (record st {
      rl_episodes =
          st.rl_episodes
          ++ (record {
            request_id = request_id;
            observation = observation;
            action = action;
            reward = reward;
            created_at = now;
          })
            ∷ [];
    })
    else none

unfoldable pub get_recent_episodes : ℕ → Storage → List RlEpisode
get_recent_episodes limit st =
    take limit (sort_desc (λ x y. ltb x.created_at y.created_at) st.rl_episodes)

-- The audit log, newest first.
abbrev pub of_type : Option String → AuditLog → Bool
of_type none row = true
of_type (some event_type) row = event_type == "" || row.event_type == event_type

unfoldable pub get_audit_log : Option String → ℕ → Storage → List AuditLog
get_audit_log event_type limit st =
    take limit
      (sort_desc (λ x y. ltb x.created_at y.created_at) (filter (of_type event_type) st.audit_log))
