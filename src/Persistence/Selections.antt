-- ===== src/Persistence/Selections.antt =====
-- What the tables hold of a completed request, and how each write keeps it.
use reinforce_spec.Prelude.{
  ℕ, ◌≡◌, refl, ap, ◌∙◌, Bool, true, false, String, List, [], ◌∷◌, ◌++◌, ◌==◌, ◌&&◌, ◌||◌,
  string_eq, arith, All,
}
use reinforce_spec.Prelude.Counting.{count, count-append, All-append, All-weaken, All-both}
use reinforce_spec.Persistence.Defs.{
  Status, EvaluationRequest, CandidateRow, RlEpisode, Storage, has_request,
}

abbrev pub is_completed : Status → Bool
is_completed Status.completed = true
is_completed Status.pending = false
is_completed Status.failed = false

abbrev pub selected_rows : String → Storage → ℕ
selected_rows id st = count (λ row. row.request_id == id && row.is_selected) st.candidate_specs

abbrev pub episodes_of : String → Storage → ℕ
episodes_of id st = count (λ episode. episode.request_id == id) st.rl_episodes

-- A completed request has one selected row and one episode.
abbrev pub Settled : Storage → EvaluationRequest → Type 0
Settled st request =
    is_completed request.status ≡ true
    → (selected_rows request.request_id st ≡ 1) × (episodes_of request.request_id st ≡ 1)

-- The foreign keys.
abbrev pub Keyed : Storage → Type 0
Keyed st =
    All (λ row. has_request row.request_id st.evaluation_requests ≡ true) st.candidate_specs
    × All (λ episode. has_request episode.request_id st.evaluation_requests ≡ true) st.rl_episodes

abbrev pub Sound : Storage → Type 0
Sound st = All (Settled st) st.evaluation_requests × Keyed st

-- The request is there and not completed.
abbrev pub Open : String → Storage → Type 0
Open id st =
    All (λ request. (request.request_id == id) ≡ true → is_completed request.status ≡ false)
      st.evaluation_requests
    × (has_request id st.evaluation_requests ≡ true)

pub has_request-append :
    (id : String) (rows more : List EvaluationRequest)
    → has_request id (rows ++ more) ≡ (has_request id rows || has_request id more)
unfolding has_request
has_request-append id [] more = refl
has_request-append id (row ∷ rows) more = ground (arith, has_request-append id rows more)

fresh-Open :
    (id : String) (rows : List EvaluationRequest)
    → has_request id rows ≡ false
    → All (λ request. (request.request_id == id) ≡ true → is_completed request.status ≡ false) rows
unfolding has_request
fresh-Open id [] h = tt
fresh-Open id (row ∷ rows) h =
    (λ same. ground (arith, same, h), fresh-Open id rows (ground (arith, h)))

absent-rows :
    (id : String) (requests : List EvaluationRequest) (rows : List CandidateRow)
    → has_request id requests ≡ false
    → All (λ row. has_request row.request_id requests ≡ true) rows
    → count (λ row. row.request_id == id && row.is_selected) rows ≡ 0
absent-rows id requests [] h a = refl
absent-rows id requests (row ∷ rows) h (a, more) =
    ground (arith, h, a, absent-rows id requests rows h more, string_eq.same_iff row.request_id id)

absent-episodes :
    (id : String) (requests : List EvaluationRequest) (rows : List RlEpisode)
    → has_request id requests ≡ false
    → All (λ row. has_request row.request_id requests ≡ true) rows
    → count (λ row. row.request_id == id) rows ≡ 0
absent-episodes id requests [] h a = refl
absent-episodes id requests (row ∷ rows) h (a, more) =
    ground
      (arith, h, a, absent-episodes id requests rows h more, string_eq.same_iff row.request_id id)

-- The request is not the completed one.
abbrev pub Undone : String → EvaluationRequest → Type 0
Undone id request = (request.request_id == id) ≡ true → is_completed request.status ≡ false

other-request :
    (id other : String) (request : EvaluationRequest)
    → other ≡ id
    → Undone id request
    → is_completed request.status ≡ true
    → (other == request.request_id) ≡ false
other-request id other request same undone done = ground (
  arith,
  same,
  undone,
  done,
  string_eq.same_iff other request.request_id,
  string_eq.same_iff request.request_id id,
)

-- A row of an open request.
pub candidate-Sound :
    (id : String) (row : CandidateRow) (st : Storage)
    → row.request_id ≡ id
    → Open id st
    → Sound st
    → Sound (record st { candidate_specs = st.candidate_specs ++ row ∷ [] })
candidate-Sound id row st same (undone, there) (settled, (rows, episodes)) =
    let later = record st { candidate_specs = st.candidate_specs ++ row ∷ [] } in
    (
      All-both (Undone id) (Settled st) (Settled later) st.evaluation_requests
          (λ request u s done.
            let (one, episode) = s done in
            let other = other-request id row.request_id request same u done in
            (
              ground (
                arith,
                one,
                other,
                count-append (λ r. r.request_id == request.request_id && r.is_selected)
                    st.candidate_specs (row ∷ []),
              ),
              episode,
            ))
          undone settled,
      (
        All-append (λ r. has_request r.request_id st.evaluation_requests ≡ true) st.candidate_specs
            (row ∷ []) rows (ap (λ i. has_request i st.evaluation_requests) same ∙ there, tt),
        episodes,
      ),
    )

-- An episode of an open request.
pub episode-Sound :
    (id : String) (episode : RlEpisode) (st : Storage)
    → episode.request_id ≡ id
    → Open id st
    → Sound st
    → Sound (record st { rl_episodes = st.rl_episodes ++ episode ∷ [] })
episode-Sound id episode st same (undone, there) (settled, (rows, episodes)) =
    let later = record st { rl_episodes = st.rl_episodes ++ episode ∷ [] } in
    (
      All-both (Undone id) (Settled st) (Settled later) st.evaluation_requests
          (λ request u s done.
            let (one, before) = s done in
            let other = other-request id episode.request_id request same u done in
            (
              one,
              ground (
                arith,
                before,
                other,
                count-append (λ e. e.request_id == request.request_id) st.rl_episodes
                    (episode ∷ []),
              ),
            ))
          undone settled,
      (
        rows,
        All-append (λ e. has_request e.request_id st.evaluation_requests ≡ true) st.rl_episodes
            (episode ∷ []) episodes
            (ap (λ i. has_request i st.evaluation_requests) same ∙ there, tt),
      ),
    )

-- A new request.
pub request-Sound :
    (row : EvaluationRequest) (st : Storage)
    → has_request row.request_id st.evaluation_requests ≡ false
    → is_completed row.status ≡ false
    → Sound st
    → let later = record st { evaluation_requests = st.evaluation_requests ++ row ∷ [] } in
      Sound later
      × Open row.request_id later
      × (selected_rows row.request_id later ≡ 0)
      × (episodes_of row.request_id later ≡ 0)
unfolding has_request
request-Sound row st fresh undone (settled, (rows, episodes)) =
    let later = record st { evaluation_requests = st.evaluation_requests ++ row ∷ [] } in
    let known : (id : String)
        → has_request id st.evaluation_requests ≡ true
        → has_request id later.evaluation_requests ≡ true =
      (λ id there.
        ground (arith, there, has_request-append id st.evaluation_requests (row ∷ []))) in
    (
      (
        All-append (Settled later) st.evaluation_requests (row ∷ []) settled
            ((λ done. ground (arith, undone, done)), tt),
        (
          All-weaken (λ r. has_request r.request_id st.evaluation_requests ≡ true)
              (λ r. has_request r.request_id later.evaluation_requests ≡ true) st.candidate_specs
              (λ r. known r.request_id) rows,
          All-weaken (λ e. has_request e.request_id st.evaluation_requests ≡ true)
              (λ e. has_request e.request_id later.evaluation_requests ≡ true) st.rl_episodes
              (λ e. known e.request_id) episodes,
        ),
      ),
      (
        All-append (Undone row.request_id) st.evaluation_requests (row ∷ [])
            (fresh-Open row.request_id st.evaluation_requests fresh) ((λ same. undone), tt),
        ground (
          arith,
          has_request-append row.request_id st.evaluation_requests (row ∷ []),
          string_eq.same_iff row.request_id row.request_id,
        ),
      ),
      absent-rows row.request_id st.evaluation_requests st.candidate_specs fresh rows,
      absent-episodes row.request_id st.evaluation_requests st.rl_episodes fresh episodes,
    )
