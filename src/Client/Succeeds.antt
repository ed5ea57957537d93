-- ===== src/Client/Succeeds.antt =====
-- A new request with two candidates or more is answered.
use reinforce_spec.Prelude.{
  ℕ, ◌<◌, ◌≡◌, inl, inr, refl, sym, ap, subst, ◌∙◌, true, false, String, List, [], ◌∷◌, ◌++◌,
  Option, none, some, length, ltb, arith, All, Bool-cases, string_eq, nat_eq, ◌==◌,
}
use reinforce_spec.Prelude.Counting.{count}
use reinforce_spec.Types.{CandidateSpec, SelectionMethod}
use reinforce_spec.Persistence.{
  Storage, Status, EvaluationRequest, CandidateRow, RlEpisode, has_request, same_spec, with_status,
  save_request, save_episode, complete_request,
}
use reinforce_spec.Persistence.Selections.{Sound, is_completed, has_request-append}
use reinforce_spec.Persistence.Writes.{with_status-has_request}
use reinforce_spec.Environment.{set_candidates}
use reinforce_spec.Environment.Features.{build_observation}
use reinforce_spec.Scoring.{
  Scorer, ScoringWeights, score_candidates, score_by, models_of, pointwise_score_all,
  scores_by_candidate, results_of, with_composites, all_scored, rank,
}
use reinforce_spec.Selector
use reinforce_spec.Selector.{HybridSelector}
use reinforce_spec.Selector.Best.{StandsIn}
use reinforce_spec.Client.Defs.{
  Client, SelectCall, Outcome, select, indexed, response, after_request, after_scores, after_choice,
  after_rows, after_episode, record_transition,
}
use reinforce_spec.Client.Ranked.{at_index, rank-count, scored-count, indexed_unique, select-stands}
use reinforce_spec.Client.Repeated.{Known}
use reinforce_spec.Client.Saving.{Room, save_scored-saved}

absent-specs :
    (id : String) (i : ℕ) (requests : List EvaluationRequest) (rows : List CandidateRow)
    → has_request id requests ≡ false
    → All (λ row. has_request row.request_id requests ≡ true) rows
    → count (same_spec id i) rows ≡ 0
absent-specs id i requests [] h a = refl
absent-specs id i requests (row ∷ rows) h (a, more) =
    ground
      (arith, h, a, absent-specs id i requests rows h more, string_eq.same_iff row.request_id id)

score_candidates-scored :
    (s : Scorer) (w : ScoringWeights) (cs : List CandidateSpec) (models : List String)
    → models_of s ≡ some models
    → (scored : List CandidateSpec) × (score_candidates s w cs ≡ some scored)
      × ((p : ℕ) → count (at_index p) scored ≡ count (at_index p) cs)
unfolding score_candidates score_by pointwise_score_all
score_candidates-scored s w cs models present =
    let groups = scores_by_candidate (results_of s models cs) [] in
    let rated = with_composites w (all_scored s.one groups cs) in
    (
      rank s.verdict s.pairwise_top_k rated,
      ap (score_by s w cs) present,
      λ p.
          rank-count (at_index p) s.verdict s.pairwise_top_k rated
          ∙ scored-count p s.one w groups cs,
    )

select-chosen :
    (s : HybridSelector) (method : SelectionMethod) (cs : List CandidateSpec)
    → 0 < count (at_index 0) cs
    → (r : CandidateSpec) × (Selector.select s method cs ≡ some r)
unfolding Selector.select
select-chosen s method [] h = absurd (ground (arith, h))
select-chosen s method (c ∷ []) h = (c, refl)
select-chosen s method (c ∷ d ∷ cs) h = (
  Selector.select_with s (Selector.apply_degradation s.degradation_level method) c (d ∷ cs),
  refl,
)

indexed-first : (cs : List CandidateSpec) → 0 < length cs → 0 < count (at_index 0) (indexed 0 cs)
unfolding indexed
indexed-first [] h = h
indexed-first (c ∷ cs) h = omega arith

-- The request is there and completed.
abbrev pub Completed : String → Storage → Type 0
Completed id st =
    Known id st
    × All (λ row. (row.request_id == id) ≡ true → is_completed row.status ≡ true)
        st.evaluation_requests

with_status-completed :
    (id : String) (now : ℕ) (rows : List EvaluationRequest)
    → All
        (λ row. (row.request_id == id) ≡ true → is_completed row.status ≡ true)
        (with_status Status.completed now id rows)
unfolding with_status
with_status-completed id now [] = tt
with_status-completed id now (row ∷ rows) = (
  elim (Bool-cases (row.request_id == id)) [
    | inl same ↦ rw same (λ h. refl)
    | inr other ↦ rw other (λ h. ground (arith, h, other))
  ],
  with_status-completed id now rows,
)

complete_request-Completed :
    (id : String) (now : ℕ) (st : Storage) → Known id st → Completed id (complete_request now id st)
unfolding complete_request
complete_request-Completed id now st there = (
  with_status-has_request id id Status.completed now st.evaluation_requests ∙ there,
  with_status-completed id now st.evaluation_requests,
)

-- What a call that is answered leaves.
abbrev pub Answered : SelectCall → Client → Outcome × Client → Type 0
Answered call c (outcome, c') =
    (scored : List CandidateSpec) × (r : CandidateSpec) × (score_candidates c.scorer call.weights
        (indexed 0 call.candidates)
      ≡ some scored)
    × StandsIn r scored
    × (outcome ≡ response call r scored)
    × Completed call.request_id c'.storage

after_rows-answered :
    (powered : ℕ → ℕ) (call : SelectCall) (r : CandidateSpec) (scored : List CandidateSpec)
    (c : Client) (st : Storage)
    → Known call.request_id st
    → (c' : Client) × (after_rows powered call r scored c (true, st) ≡ (response call r scored, c'))
      × Completed call.request_id c'.storage
unfolding record_transition save_episode
after_rows-answered powered call r scored c st there =
    let obs = build_observation c.env.one scored 5 in
    let episode : RlEpisode = record {
      request_id = call.request_id;
      observation = obs;
      action = r.index;
      reward = r.composite_score;
      created_at = call.now;
    } in
    let later = record st { rl_episodes = st.rl_episodes ++ episode ∷ [] } in
    let c1 = record c { storage = st; env = set_candidates scored c.env } in
    let saved : save_episode call.now call.request_id obs r.index r.composite_score st
        ≡ some later =
      rw there refl in
    (
      record_transition powered call obs r scored (record c1 { storage = later }),
      ap (after_episode powered call obs r scored c1) saved,
      complete_request-Completed call.request_id call.now later there,
    )

save_request-saved :
    (now : ℕ) (id : String) (n : ℕ) (description : String) (customer : Option String) (st : Storage)
    → has_request id st.evaluation_requests ≡ false
    → (later : Storage) × (save_request now id n description customer st ≡ some later)
      × (later.candidate_specs ≡ st.candidate_specs)
      × Known id later
unfolding save_request has_request
save_request-saved now id n description customer st fresh =
    let row : EvaluationRequest = record {
      request_id = id;
      description = description;
      customer_type = customer;
      n_specs = n;
      created_at = now;
      completed_at = none;
      status = Status.pending;
    } in
    (
      record st { evaluation_requests = st.evaluation_requests ++ row ∷ [] },
      rw fresh refl,
      refl,
      ground (
        arith,
        has_request-append id st.evaluation_requests (row ∷ []),
        string_eq.same_iff id id,
      ),
    )

pub select-Answered :
    (powered : ℕ → ℕ) (call : SelectCall) (c : Client) (models : List String)
    → ltb (length call.candidates) 2 ≡ false
    → has_request call.request_id c.storage.evaluation_requests ≡ false
    → Sound c.storage
    → models_of c.scorer ≡ some models
    → Answered call c (select powered call c)
unfolding select
select-Answered powered call c models enough fresh (_, (rows, _)) present =
    let id = call.request_id in
    let (st, begun, kept, there) =
      save_request-saved call.now id (length call.candidates) call.description call.customer_type
        c.storage fresh in
    let (scored, e, counts) =
      score_candidates-scored c.scorer call.weights (indexed 0 call.candidates) models present in
    let nonempty : 0 < count (at_index 0) scored =
      omega (arith, counts 0, indexed-first call.candidates (ground (arith, enough))) in
    let (r, chosen) = select-chosen c.selector call.selection_method scored nonempty in
    let room : Room id scored st.candidate_specs = subst (Room id scored) (sym kept) (λ i. omega (
      arith,
      counts i,
      indexed_unique i 0 call.candidates,
      absent-specs id i c.storage.evaluation_requests c.storage.candidate_specs fresh rows,
    )) in
    let (later, saved, same) = save_scored-saved id r.index scored st room there in
    let c1 = record c { storage = st } in
    let (c', answer, completed) =
      after_rows-answered powered call r scored c1 later (ap (has_request id) same ∙ there) in
    let result : select powered call c ≡ (response call r scored, c') = rw enough (
      ap (after_request powered call c) begun
      ∙ ap (after_scores powered call c1) e
      ∙ ap (after_choice powered call scored c1) chosen
      ∙ ap (after_rows powered call r scored c1) saved
      ∙ answer) in
    subst (Answered call c) (sym result) (
      scored,
      r,
      e,
      select-stands c.selector call.selection_method scored r chosen,
      refl,
      completed,
    )
