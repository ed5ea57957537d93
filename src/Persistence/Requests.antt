-- ===== src/Persistence/Requests.antt =====
-- What the writes do to the requests.
use reinforce_spec.Prelude.{
  ℕ, ◌≡◌, ◌⊎◌, sym, ap, subst, true, String, List, [], ◌∷◌, ◌++◌, Option, none, some, string_eq,
  arith,
}
use reinforce_spec.Persistence.Defs.{
  Status, EvaluationRequest, CandidateRow, Storage, has_request, save_request, has_spec,
  save_candidate, save_dimension_scores, dimension_rows, save_episode,
}
use mathlib.Core.Option.{some_inj}
use reinforce_spec.Persistence.Selections.{has_request-append}
use reinforce_spec.Persistence.Writes.{unless-some, unless-none, when-some, neither-some}

pub save_candidate-requests :
    (row : CandidateRow) (st later : Storage)
    → save_candidate row st ≡ some later
    → later.evaluation_requests ≡ st.evaluation_requests
unfolding save_candidate
save_candidate-requests row st later e = sym (
    ap (λ s. s.evaluation_requests)
      (neither-some (has_spec row.request_id row.index_pos st.candidate_specs)
        (has_request row.request_id st.evaluation_requests)
        (record st { candidate_specs = st.candidate_specs ++ row ∷ [] }) later e))

pub save_dimension_scores-requests :
    (id : String) (index : ℕ) (scores : List (String × ℕ)) (st later : Storage)
    → save_dimension_scores (id, index) scores st ≡ some later
    → later.evaluation_requests ≡ st.evaluation_requests
unfolding save_dimension_scores
save_dimension_scores-requests id index [] st later e =
    sym (ap (λ s. s.evaluation_requests) (some_inj.0 e))
save_dimension_scores-requests id index (score ∷ scores) st later e = sym (
    ap (λ s. s.evaluation_requests)
      ((when-some (has_spec id index st.candidate_specs)
        (record st {
          dimension_scores = st.dimension_scores ++ dimension_rows (id, index) (score ∷ scores);
        })
        later e).1))

pub save_episode-requests :
    (now : ℕ) (id : String) (obs : List ℕ) (action reward : ℕ) (st later : Storage)
    → save_episode now id obs action reward st ≡ some later
    → later.evaluation_requests ≡ st.evaluation_requests
unfolding save_episode
save_episode-requests now id obs action reward st later e = sym (
    ap (λ s. s.evaluation_requests)
      ((when-some (has_request id st.evaluation_requests)
        (record st {
          rl_episodes =
              st.rl_episodes
              ++ (record {
                request_id = id;
                observation = obs;
                action = action;
                reward = reward;
                created_at = now;
              })
                ∷ [];
        })
        later e).1))

-- A request that is saved is there, and so are those before it.
pub has_request-saved :
    (now : ℕ) (id other : String) (n : ℕ) (description : String) (customer : Option String)
    (st later : Storage)
    → save_request now id n description customer st ≡ some later
    → (other ≡ id) ⊎ (has_request other st.evaluation_requests ≡ true)
    → has_request other later.evaluation_requests ≡ true
unfolding save_request has_request
has_request-saved now id other n description customer st later e h =
    let row : EvaluationRequest = record {
      request_id = id;
      description = description;
      customer_type = customer;
      n_specs = n;
      created_at = now;
      completed_at = none;
      status = Status.pending;
    } in
    let (_, same) =
      unless-some (has_request id st.evaluation_requests)
        (record st { evaluation_requests = st.evaluation_requests ++ row ∷ [] }) later e in
    subst (λ s. has_request other s.evaluation_requests ≡ true) same
      (ground (
        arith,
        h,
        has_request-append other st.evaluation_requests (row ∷ []),
        string_eq.same_iff id other,
      ))

pub save_request-refused :
    (now : ℕ) (id : String) (n : ℕ) (description : String) (customer : Option String) (st : Storage)
    → save_request now id n description customer st ≡ none
    → has_request id st.evaluation_requests ≡ true
unfolding save_request
save_request-refused now id n description customer st e =
    let row : EvaluationRequest = record {
      request_id = id;
      description = description;
      customer_type = customer;
      n_specs = n;
      created_at = now;
      completed_at = none;
      status = Status.pending;
    } in
    unless-none (has_request id st.evaluation_requests)
      (record st { evaluation_requests = st.evaluation_requests ++ row ∷ [] }) e
