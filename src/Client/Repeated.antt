-- ===== src/Client/Repeated.antt =====
-- A request id that has been used once.
use reinforce_spec.Prelude.{
  ℕ, ◌≡◌, inl, inr, refl, ap, ◌∙◌, Bool, true, false, String, List, [], ◌∷◌, Option, none, some,
  length, ltb, Bool-cases, Option-cases, string_eq,
}
use reinforce_spec.Types.{CandidateSpec}
use reinforce_spec.Persistence.{
  Storage, Status, has_request, save_request, save_candidate, save_dimension_scores, save_episode,
  complete_request,
}
use reinforce_spec.Persistence.Writes.{with_status-has_request}
use reinforce_spec.Persistence.Requests.{
  has_request-saved, save_request-refused, save_candidate-requests, save_dimension_scores-requests,
  save_episode-requests,
}
use reinforce_spec.Environment.{set_candidates}
use reinforce_spec.Environment.Features.{build_observation}
use reinforce_spec.Scoring.{score_candidates}
use reinforce_spec.Selector
use reinforce_spec.Client.Defs.{
  Client, SelectCall, Outcome, SelectError, row_of, save_scored, select, indexed, after_request,
  after_scores, after_choice, after_rows, after_episode, record_transition,
}
use reinforce_spec.Client.Records.{selects}

-- The request is in the tables.
abbrev pub Known : String → Storage → Type 0
Known id st = has_request id st.evaluation_requests ≡ true

same-Known :
    (id : String) (st later : Storage)
    → later.evaluation_requests ≡ st.evaluation_requests
    → Known id st
    → Known id later
same-Known id st later same there = ap (has_request id) same ∙ there

save_scored-Known :
    (id other : String) (selected : ℕ) (cs : List CandidateSpec) (st : Storage)
    → Known other st
    → Known other (save_scored id selected cs st).1
unfolding save_scored
save_scored-Known id other selected [] st there = there
save_scored-Known id other selected (c ∷ cs) st there =
    elim (Option-cases (save_candidate (row_of id selected c) st)) [
      | inl failed ↦ rw failed there
      | inr (st1, e) ↦
          let there1 =
            same-Known other st st1 (save_candidate-requests (row_of id selected c) st st1 e)
              there in
          elim (Option-cases (save_dimension_scores (id, c.index) c.dimension_scores st1)) [
            | inl failed ↦ rw (e, failed) there1
            | inr (st2, e2) ↦
                rw (e, e2)
                  (save_scored-Known id other selected cs st2 (
                    same-Known other st1 st2
                      (save_dimension_scores-requests id c.index c.dimension_scores st1 st2 e2)
                      there1))
          ]
    ]

after_episode-Known :
    (powered : ℕ → ℕ) (call : SelectCall) (obs : List ℕ) (selected : CandidateSpec)
    (scored : List CandidateSpec) (c : Client) (saved : Option Storage) (id : String)
    → Known id c.storage
    → ((st : Storage) → saved ≡ some st → Known id st)
    → Known id ((after_episode powered call obs selected scored c saved).1).storage
unfolding record_transition complete_request
after_episode-Known powered call obs selected scored c none id there h = there
after_episode-Known powered call obs selected scored c (some st) id there h =
    with_status-has_request call.request_id id Status.completed call.now st.evaluation_requests
    ∙ h st refl

after_rows-Known :
    (powered : ℕ → ℕ) (call : SelectCall) (selected : CandidateSpec) (scored : List CandidateSpec)
    (c : Client) (result : Bool × Storage) (id : String)
    → Known id (result.1)
    → Known id ((after_rows powered call selected scored c result).1).storage
after_rows-Known powered call selected scored c (false, st) id there = there
after_rows-Known powered call selected scored c (true, st) id there =
    let obs = build_observation c.env.one scored 5 in
    let saved =
      save_episode call.now call.request_id obs selected.index selected.composite_score st in
    after_episode-Known powered call obs selected scored
      (record c { storage = st; env = set_candidates scored c.env }) saved id there
      (λ later e.
        same-Known id st later
          (save_episode-requests call.now call.request_id obs selected.index
            selected.composite_score st later e)
          there)

after_choice-Known :
    (powered : ℕ → ℕ) (call : SelectCall) (scored : List CandidateSpec) (c : Client)
    (chosen : Option CandidateSpec) (id : String)
    → Known id c.storage
    → Known id ((after_choice powered call scored c chosen).1).storage
after_choice-Known powered call scored c none id there = there
after_choice-Known powered call scored c (some selected) id there =
    after_rows-Known powered call selected scored c
      (save_scored call.request_id selected.index scored c.storage) id
      (save_scored-Known call.request_id id selected.index scored c.storage there)

after_scores-Known :
    (powered : ℕ → ℕ) (call : SelectCall) (c : Client) (scored : Option (List CandidateSpec))
    (id : String)
    → Known id c.storage
    → Known id ((after_scores powered call c scored).1).storage
after_scores-Known powered call c none id there = there
after_scores-Known powered call c (some scored) id there =
    after_choice-Known powered call scored c
      (Selector.select c.selector call.selection_method scored) id there

after_request-Known :
    (powered : ℕ → ℕ) (call : SelectCall) (c : Client) (saved : Option Storage) (id : String)
    → (saved ≡ none → Known id c.storage)
    → ((st : Storage) → saved ≡ some st → Known id st)
    → Known id ((after_request powered call c saved).1).storage
after_request-Known powered call c none id there begun = there refl
after_request-Known powered call c (some st) id there begun =
    after_scores-Known powered call (record c { storage = st })
      (score_candidates c.scorer call.weights (indexed 0 call.candidates)) id (begun st refl)

-- A call keeps the requests.
select-Known :
    (powered : ℕ → ℕ) (call : SelectCall) (c : Client) (id : String)
    → Known id c.storage
    → Known id ((select powered call c).1).storage
unfolding select
select-Known powered call c id there = elim (Bool-cases (ltb (length call.candidates) 2)) [
  | inl few ↦ rw few there
  | inr enough ↦ rw enough (
      after_request-Known powered call c
        (save_request call.now call.request_id (length call.candidates) call.description
          call.customer_type c.storage)
        id (λ e. there)
        (λ st e.
          has_request-saved call.now call.request_id id (length call.candidates) call.description
            call.customer_type c.storage st e (inr there)))
]

-- With two candidates its own request is there after it.
own-Known :
    (powered : ℕ → ℕ) (call : SelectCall) (c : Client)
    → ltb (length call.candidates) 2 ≡ false
    → Known call.request_id ((select powered call c).1).storage
unfolding select
own-Known powered call c enough = rw enough (
    after_request-Known powered call c
      (save_request call.now call.request_id (length call.candidates) call.description
        call.customer_type c.storage)
      call.request_id
      (save_request-refused call.now call.request_id (length call.candidates) call.description
        call.customer_type c.storage)
      (λ st e.
        has_request-saved call.now call.request_id call.request_id (length call.candidates)
          call.description call.customer_type c.storage st e (inl refl)))

selects-Known :
    (powered : ℕ → ℕ) (calls : List SelectCall) (c : Client) (id : String)
    → Known id c.storage
    → Known id (selects powered calls c).storage
selects-Known powered [] c id there = there
selects-Known powered (call ∷ calls) c id there =
    selects-Known powered calls (select powered call c).1 id (select-Known powered call c id there)

refused-again :
    (powered : ℕ → ℕ) (call : SelectCall) (c : Client)
    → ltb (length call.candidates) 2 ≡ false
    → Known call.request_id c.storage
    → select powered call c ≡ (Outcome.raised SelectError.integrity_error, c)
unfolding select save_request
refused-again powered call c enough there = rw (enough, there)

pub select-Repeated :
    (powered : ℕ → ℕ) (first : SelectCall) (calls : List SelectCall) (again : SelectCall)
    (c : Client)
    → ltb (length first.candidates) 2 ≡ false
    → ltb (length again.candidates) 2 ≡ false
    → again.request_id ≡ first.request_id
    → let later = selects powered (first ∷ calls) c in
      select powered again later ≡ (Outcome.raised SelectError.integrity_error, later)
select-Repeated powered first calls again c enough enough' same =
    let later = selects powered (first ∷ calls) c in
    let there =
      selects-Known powered calls (select powered first c).1 first.request_id
        (own-Known powered first c enough) in
    refused-again powered again later enough'
      (ap (λ id. has_request id later.storage.evaluation_requests) same ∙ there)
