-- ===== src/Persistence/Writes.antt =====
-- Each write of the client keeps what the tables hold of a completed request.
use reinforce_spec.Prelude.{
  ℕ, ◌+◌, ◌≡◌, inl, inr, refl, sym, ap, subst, ◌∙◌, Bool, true, false, String, List, [], ◌∷◌, ◌++◌,
  Option, none, some, if◌then◌else◌, ◌==◌, ◌&&◌, string_eq, arith, All, Bool-cases,
}
use reinforce_spec.Prelude.Counting.{count-append, All-weaken}
use reinforce_spec.Persistence.Defs.{
  Status, EvaluationRequest, CandidateRow, RlEpisode, Storage, has_request, save_request,
  with_status, complete_request, has_spec, save_candidate, save_dimension_scores, dimension_rows,
  save_episode,
}
use mathlib.Core.Option.{some_inj, none-ne-some}
use reinforce_spec.Persistence.Selections.{
  selected_rows, episodes_of, Settled, Sound, Open, candidate-Sound, episode-Sound, request-Sound,
}

-- What a guarded write says of its test.
pub unless-some {ℓ} :
    {A : Type ℓ} (b : Bool) (x y : A)
    → (if b then none else some x) ≡ some y
    → (b ≡ false) × (x ≡ y)
unless-some true x y e = absurd (none-ne-some y e)
unless-some false x y e = (refl, some_inj.0 e)

pub unless-none {ℓ} :
    {A : Type ℓ} (b : Bool) (x : A) → (if b then none else some x) ≡ none → b ≡ true
unless-none true x e = refl
unless-none false x e = absurd (none-ne-some x (sym e))

pub when-some {ℓ} :
    {A : Type ℓ} (b : Bool) (x y : A) → (if b then some x else none) ≡ some y → (b ≡ true) × (x ≡ y)
when-some true x y e = (refl, some_inj.0 e)
when-some false x y e = absurd (none-ne-some y e)

pub neither-some {ℓ} :
    {A : Type ℓ} (b c : Bool) (x y : A)
    → (if b then none else (if c then some x else none)) ≡ some y
    → x ≡ y
neither-some true c x y e = absurd (none-ne-some y e)
neither-some false c x y e = (when-some c x y e).1

pub with_status-has_request :
    (id other : String) (status : Status) (now : ℕ) (rows : List EvaluationRequest)
    → has_request other (with_status status now id rows) ≡ has_request other rows
unfolding has_request with_status
with_status-has_request id other status now [] = refl
with_status-has_request id other status now (row ∷ rows) =
    ground (arith, with_status-has_request id other status now rows)

with_status-Settled :
    (id : String) (now : ℕ) (st : Storage) (rows : List EvaluationRequest)
    → selected_rows id st ≡ 1
    → episodes_of id st ≡ 1
    → All (Settled st) rows
    → All (Settled st) (with_status Status.completed now id rows)
unfolding with_status
with_status-Settled id now st [] one episode a = tt
with_status-Settled id now st (row ∷ rows) one episode (a, more) =
    let rest = with_status-Settled id now st rows one episode more in
    elim (Bool-cases (row.request_id == id)) [
      | inl same ↦
          let e = (string_eq.same_iff row.request_id id).0 same in
          rw same (
            (λ done.
                (ap (λ i. selected_rows i st) e ∙ one, ap (λ i. episodes_of i st) e ∙ episode)),
            rest,
          )
      | inr other ↦ rw other (a, rest)
    ]

-- A request is completed when it has its selected row and its episode.
pub complete_request-Sound :
    (id : String) (now : ℕ) (st : Storage)
    → selected_rows id st ≡ 1
    → episodes_of id st ≡ 1
    → Sound st
    → Sound (complete_request now id st)
unfolding complete_request
complete_request-Sound id now st one episode (settled, (rows, episodes)) =
    let requests = st.evaluation_requests in
    let known : (i : String)
        → has_request i requests ≡ true
        → has_request i (with_status Status.completed now id requests) ≡ true =
      (λ i there. with_status-has_request id i Status.completed now requests ∙ there) in
    (
      with_status-Settled id now st requests one episode settled,
      (
        All-weaken (λ r. has_request r.request_id requests ≡ true)
            (λ r. has_request r.request_id (with_status Status.completed now id requests) ≡ true)
            st.candidate_specs (λ r. known r.request_id) rows,
        All-weaken (λ e. has_request e.request_id requests ≡ true)
            (λ e. has_request e.request_id (with_status Status.completed now id requests) ≡ true)
            st.rl_episodes (λ e. known e.request_id) episodes,
      ),
    )

-- The outcomes of the writes. A new request is open and has no rows.
abbrev pub Begun : String → Storage → Type 0
Begun id st = Sound st × Open id st × (selected_rows id st ≡ 0) × (episodes_of id st ≡ 0)

pub save_request-Begun :
    (now : ℕ) (id : String) (n : ℕ) (description : String) (customer : Option String)
    (st later : Storage)
    → save_request now id n description customer st ≡ some later
    → Sound st
    → Begun id later
unfolding save_request
save_request-Begun now id n description customer st later e sound =
    let row : EvaluationRequest = record {
      request_id = id;
      description = description;
      customer_type = customer;
      n_specs = n;
      created_at = now;
      completed_at = none;
      status = Status.pending;
    } in
    let (fresh, same) =
      unless-some (has_request id st.evaluation_requests)
        (record st { evaluation_requests = st.evaluation_requests ++ row ∷ [] }) later e in
    subst (Begun id) same (request-Sound row st fresh refl sound)

-- A candidate's row counts if it is selected.
abbrev pub Counted : String → ℕ → Storage → Storage → Type 0
Counted id more st later =
    Sound later
    × Open id later
    × (selected_rows id later ≡ selected_rows id st + more)
    × (episodes_of id later ≡ episodes_of id st)

abbrev pub as_count : Bool → ℕ
as_count true = 1
as_count false = 0

pub save_candidate-Counted :
    (row : CandidateRow) (st later : Storage)
    → save_candidate row st ≡ some later
    → Open row.request_id st
    → Sound st
    → Counted row.request_id (as_count row.is_selected) st later
unfolding save_candidate
save_candidate-Counted row st later e still sound =
    let id = row.request_id in
    let saved = record st { candidate_specs = st.candidate_specs ++ row ∷ [] } in
    let same =
      neither-some (has_spec id row.index_pos st.candidate_specs)
        (has_request id st.evaluation_requests) saved later e in
    subst (Counted id (as_count row.is_selected) st) same (
      candidate-Sound id row st refl still sound,
      still,
      ground (
        arith,
        count-append (λ r. r.request_id == id && r.is_selected) st.candidate_specs (row ∷ []),
        string_eq.same_iff id id,
      ),
      refl,
    )

pub save_dimension_scores-Counted :
    (id : String) (index : ℕ) (scores : List (String × ℕ)) (st later : Storage)
    → save_dimension_scores (id, index) scores st ≡ some later
    → Open id st
    → Sound st
    → Counted id 0 st later
unfolding save_dimension_scores
save_dimension_scores-Counted id index [] st later e still sound =
    subst (Counted id 0 st) (some_inj.0 e) (sound, still, omega arith, refl)
save_dimension_scores-Counted id index (score ∷ scores) st later e still sound =
    let saved = record st {
      dimension_scores = st.dimension_scores ++ dimension_rows (id, index) (score ∷ scores);
    } in
    let (_, same) = when-some (has_spec id index st.candidate_specs) saved later e in
    subst (Counted id 0 st) same (sound, still, omega arith, refl)

-- The episode of an open request.
abbrev pub Recorded : String → Storage → Storage → Type 0
Recorded id st later =
    Sound later
    × (selected_rows id later ≡ selected_rows id st)
    × (episodes_of id later ≡ episodes_of id st + 1)

pub save_episode-Recorded :
    (now : ℕ) (id : String) (obs : List ℕ) (action reward : ℕ) (st later : Storage)
    → save_episode now id obs action reward st ≡ some later
    → Open id st
    → Sound st
    → Recorded id st later
unfolding save_episode
save_episode-Recorded now id obs action reward st later e still sound =
    let episode : RlEpisode = record {
      request_id = id;
      observation = obs;
      action = action;
      reward = reward;
      created_at = now;
    } in
    let (_, same) =
      when-some (has_request id st.evaluation_requests)
        (record st { rl_episodes = st.rl_episodes ++ episode ∷ [] }) later e in
    subst (Recorded id st) same (
      episode-Sound id episode st refl still sound,
      refl,
      ground (
        arith,
        count-append (λ e. e.request_id == id) st.rl_episodes (episode ∷ []),
        string_eq.same_iff id id,
      ),
    )
