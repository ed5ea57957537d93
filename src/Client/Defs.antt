-- ===== src/Client/Defs.antt =====
-- The state is that of the parts the client has connected. `now` is the time of every write of one
-- call; the priority of a transition does not depend on an error, since `add` is given none.
use reinforce_spec.Prelude.{
  ℕ, suc, ◌-◌, ◌*◌, Bool, true, false, String, List, [], ◌∷◌, ◌++◌, Option, none, some, length,
  replicate, drop, ltb, nat_beq, if◌then◌else◌,
}
use reinforce_spec.Prelude.Sort.{sort_desc}
use reinforce_spec.Prelude.Integers.{ℤ, difference}
use reinforce_spec.Types.{CandidateSpec, SelectionMethod}
use reinforce_spec.Persistence.{
  Storage, CandidateRow, save_request, save_candidate, save_dimension_scores, save_episode,
  complete_request, save_feedback, append_audit_log,
}
use reinforce_spec.ReplayBuffer
use reinforce_spec.ReplayBuffer.{Buffer}
use reinforce_spec.ReplayBuffer.Transitions.{Transition}
use reinforce_spec.Environment.{SpecSelectionEnv, set_candidates, set_feedback_signal}
use reinforce_spec.Environment.Features.{build_observation}
use reinforce_spec.Scoring.{Scorer, ScoringWeights, score_candidates, lower}
use reinforce_spec.Selector.{HybridSelector}
use reinforce_spec.Selector

pub record Client : Type 0 where
  pub n_candidates : ℕ
  pub window_size : ℕ
  pub scorer : Scorer
  pub selector : HybridSelector
  pub storage : Storage
  pub env : SpecSelectionEnv
  pub replay_buffer : Buffer Transition
  pub current : List ℕ

pub data SelectError : Type 0 where
  insufficient_candidates : ℕ → SelectError
  integrity_error : SelectError
  index_error : SelectError
  value_error : SelectError

pub record SelectionResponse : Type 0 where
  pub request_id : String
  pub selected : CandidateSpec
  pub all_candidates : List CandidateSpec

pub data Outcome : Type 0 where
  raised : SelectError → Outcome
  answered : SelectionResponse → Outcome

pub record SelectCall : Type 0 where
  pub request_id : String
  pub candidates : List CandidateSpec
  pub weights : ScoringWeights
  pub customer_type : Option String
  pub selection_method : SelectionMethod
  pub description : String
  pub now : ℕ

-- `for i, c in enumerate(candidates)`
unfoldable pub indexed : ℕ → List CandidateSpec → List CandidateSpec
indexed i [] = []
indexed i (c ∷ cs) = record c { index = i } ∷ indexed (suc i) cs

abbrev pub row_of : String → ℕ → CandidateSpec → CandidateRow
row_of request_id selected c = record {
  request_id = request_id;
  index_pos = c.index;
  spec_format = c.format;
  content = c.content;
  source_model = c.source_model;
  composite_score = c.composite_score;
  is_selected = nat_beq c.index selected;
}

-- The tables after the rows of the scored candidates, with whether all writes have succeeded: those
-- before a failure stay.
abbrev pub or_kept : Storage → Option Storage → Bool × Storage
or_kept st none = (false, st)
or_kept st (some later) = (true, later)

unfoldable pub save_scored : String → ℕ → List CandidateSpec → Storage → Bool × Storage
save_scored request_id selected [] st = (true, st)
save_scored request_id selected (c ∷ cs) st =
    let (saved, st1) = or_kept st (save_candidate (row_of request_id selected c) st) in
    let (scored, st2) =
      or_kept st1 (save_dimension_scores (request_id, c.index) c.dimension_scores st1) in
    let rest = save_scored request_id selected cs st2 in
    if saved then (if scored then rest else (false, st2)) else (false, st1)

abbrev pub composites_of : List CandidateSpec → List ℕ
composites_of [] = []
composites_of (c ∷ cs) = c.composite_score ∷ composites_of cs

-- The reward of every candidate in the order of the ranking, filled up with zeros.
unfoldable pub candidate_rewards : ℕ → List CandidateSpec → List ℕ
candidate_rewards n scored = composites_of scored ++ replicate (n - length scored) 0

-- `deque(maxlen=...)`
abbrev pub append_last : ℕ → List ℕ → ℕ → List ℕ
append_last window scores score = let all = scores ++ score ∷ [] in drop (length all - window) all

-- What follows the episode: the replay buffer, the window of the drift detector, and the status.
unfoldable pub record_transition :
    (ℕ → ℕ) → SelectCall → List ℕ → CandidateSpec → List CandidateSpec → Client → Client
unfolding candidate_rewards
record_transition powered call obs selected scored c = record c {
  replay_buffer =
      ReplayBuffer.add powered
        (record {
          observation = obs;
          action = selected.index;
          reward = selected.composite_score;
          next_observation = obs;
          done = true;
          candidate_rewards = some (candidate_rewards c.n_candidates scored);
        })
        none c.replay_buffer;
  current = append_last c.window_size c.current selected.composite_score;
  storage = complete_request call.now call.request_id c.storage;
}

abbrev pub response : SelectCall → CandidateSpec → List CandidateSpec → Outcome
response call selected scored = Outcome.answered (record {
  request_id = call.request_id;
  selected = selected;
  all_candidates = sort_desc lower scored;
})

-- Steps 5 to 6 of `select`.
abbrev pub after_episode :
    (ℕ → ℕ)
    → SelectCall
    → List ℕ
    → CandidateSpec
    → List CandidateSpec
    → Client
    → Option Storage
    → Outcome × Client
after_episode powered call obs selected scored c none =
    (Outcome.raised SelectError.integrity_error, c)
after_episode powered call obs selected scored c (some st) = (
  response call selected scored,
  record_transition powered call obs selected scored (record c { storage = st }),
)

abbrev pub after_rows :
    (ℕ → ℕ)
    → SelectCall
    → CandidateSpec
    → List CandidateSpec
    → Client
    → Bool × Storage
    → Outcome × Client
after_rows powered call selected scored c (false, st) =
    (Outcome.raised SelectError.integrity_error, record c { storage = st })
after_rows powered call selected scored c (true, st) =
    let obs = build_observation c.env.one scored 5 in
    let c' = record c { storage = st; env = set_candidates scored c.env } in
    after_episode powered call obs selected scored c'
      (save_episode call.now call.request_id obs selected.index selected.composite_score st)

-- Step 3 and what follows it; the selector raises a ValueError for no candidates only.
abbrev pub after_choice :
    (ℕ → ℕ) → SelectCall → List CandidateSpec → Client → Option CandidateSpec → Outcome × Client
after_choice powered call scored c none = (Outcome.raised SelectError.value_error, c)
after_choice powered call scored c (some selected) =
    after_rows powered call selected scored c
      (save_scored call.request_id selected.index scored c.storage)

abbrev pub after_scores :
    (ℕ → ℕ) → SelectCall → Client → Option (List CandidateSpec) → Outcome × Client
after_scores powered call c none = (Outcome.raised SelectError.index_error, c)
after_scores powered call c (some scored) =
    after_choice powered call scored c (Selector.select c.selector call.selection_method scored)

abbrev pub after_request : (ℕ → ℕ) → SelectCall → Client → Option Storage → Outcome × Client
after_request powered call c none = (Outcome.raised SelectError.integrity_error, c)
after_request powered call c (some st) =
    after_scores powered call (record c { storage = st })
      (score_candidates c.scorer call.weights (indexed 0 call.candidates))

unfoldable pub select : (ℕ → ℕ) → SelectCall → Client → Outcome × Client
unfolding indexed
select powered call c =
    if ltb (length call.candidates) 2
    then (Outcome.raised (SelectError.insufficient_candidates (length call.candidates)), c)
    else after_request powered call c (
        save_request call.now call.request_id (length call.candidates) call.description
          call.customer_type c.storage)

-- The rating less 3, in half the unit of scores.
abbrev pub normalized : ℕ → ℕ → ℤ
normalized one rating = difference rating (3 * one)

abbrev pub hear_rating : Option ℕ → SpecSelectionEnv → SpecSelectionEnv
hear_rating none e = e
hear_rating (some rating) e = set_feedback_signal (normalized e.one rating) e

abbrev pub after_feedback : ℕ → String → Option ℕ → Client → Option Storage → Option Client
after_feedback now request_id rating c none = none
after_feedback now request_id rating c (some st) = some (record c {
  env = hear_rating rating c.env;
  storage = append_audit_log now "feedback_submitted" (("request_id", request_id) ∷ []) "system" st;
})

-- `submit_feedback`; none is the IntegrityError of a request that is not there. Of the payload of the
-- audit log only the request is kept.
unfoldable pub submit_feedback :
    ℕ → String → Option ℕ → Option String → Option (String × ℕ) → Client → Option Client
submit_feedback now request_id rating comment spec_id c =
    after_feedback now request_id rating c
      (save_feedback now request_id rating comment spec_id c.storage)
