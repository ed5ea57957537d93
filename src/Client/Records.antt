-- ===== src/Client/Records.antt =====
-- Whatever calls of `select` have been made, the tables are sound.
use reinforce_spec.Prelude.{
  ℕ, suc, ◌+◌, ◌≡◌, inl, inr, refl, sym, subst, ◌∙◌, Bool, true, false, String, List, [], ◌∷◌,
  Option, none, some, length, ltb, if◌then◌else◌, arith, Bool-cases, Option-cases, nat_beq,
  string_eq,
}
use reinforce_spec.Prelude.Counting.{count}
use reinforce_spec.Types.{CandidateSpec}
use reinforce_spec.Persistence.{
  Storage, save_request, save_candidate, save_dimension_scores, save_episode, created,
}
use reinforce_spec.Persistence.Selections.{Sound, Open, selected_rows, episodes_of}
use reinforce_spec.Persistence.Writes.{
  Begun, Counted, as_count, save_request-Begun, save_candidate-Counted,
  save_dimension_scores-Counted, save_episode-Recorded, complete_request-Sound,
}
use reinforce_spec.Environment.{set_candidates}
use reinforce_spec.Environment.Features.{build_observation}
use reinforce_spec.Scoring.{score_candidates}
use reinforce_spec.Selector
use reinforce_spec.Client.Defs.{
  Client, SelectCall, row_of, save_scored, select, indexed, after_request, after_scores,
  after_choice, after_rows, after_episode, record_transition,
}
use reinforce_spec.Client.Ranked.{at_index, selected_unique}

-- What the rows of some candidates leave behind; all of them if the writes succeed.
abbrev pub Saved : String → ℕ → Storage → Bool × Storage → Type 0
Saved id more st (false, later) = Sound later
Saved id more st (true, later) = Counted id more st later

first-Saved :
    (id : String) (n : ℕ) (chosen : Bool) (st st1 : Storage) (result : Bool × Storage)
    → selected_rows id st1 ≡ selected_rows id st + as_count chosen
    → episodes_of id st1 ≡ episodes_of id st
    → Saved id n st1 result
    → Saved id (if chosen then suc n else n) st result
first-Saved id n chosen st st1 (false, later) counted episodes h = h
first-Saved id n chosen st st1 (true, later) counted episodes (sound, still, more, same) =
    (sound, still, ground (arith, counted, more), same ∙ episodes)

save_scored-Saved :
    (id : String) (selected : ℕ) (cs : List CandidateSpec) (st : Storage)
    → Open id st
    → Sound st
    → Saved id (count (at_index selected) cs) st (save_scored id selected cs st)
unfolding save_scored
save_scored-Saved id selected [] st still sound = (sound, still, omega arith, refl)
save_scored-Saved id selected (c ∷ cs) st still sound =
    elim (Option-cases (save_candidate (row_of id selected c) st)) [
      | inl failed ↦ rw failed sound
      | inr (st1, e) ↦
          let (sound1, open1, counted1, episodes1) =
            save_candidate-Counted (row_of id selected c) st st1 e still sound in
          elim (Option-cases (save_dimension_scores (id, c.index) c.dimension_scores st1)) [
            | inl failed ↦ rw (e, failed) sound1
            | inr (st2, e2) ↦
                let (sound2, open2, counted2, episodes2) =
                  save_dimension_scores-Counted id c.index c.dimension_scores st1 st2 e2 open1
                    sound1 in
                let rest = save_scored-Saved id selected cs st2 open2 sound2 in
                rw (e, e2)
                  (first-Saved id (count (at_index selected) cs) (nat_beq c.index selected) st st2
                    (save_scored id selected cs st2) (omega (arith, counted1, counted2))
                    (episodes2 ∙ episodes1) rest)
          ]
    ]

-- The end of a call keeps the tables sound, if the writes before it have left one selected row and no
-- episode.
after_episode-Sound :
    (powered : ℕ → ℕ) (call : SelectCall) (obs : List ℕ) (selected : CandidateSpec)
    (scored : List CandidateSpec) (c : Client) (saved : Option Storage)
    → Sound c.storage
    → ((st : Storage)
        → saved ≡ some st
        → Sound st × (selected_rows call.request_id st ≡ 1) × (episodes_of call.request_id st ≡ 1))
    → Sound ((after_episode powered call obs selected scored c saved).1).storage
unfolding record_transition
after_episode-Sound powered call obs selected scored c none sound h = sound
after_episode-Sound powered call obs selected scored c (some st) sound h =
    let (sound', one, episode) = h st refl in
    complete_request-Sound call.request_id call.now st one episode sound'

after_rows-Sound :
    (powered : ℕ → ℕ) (call : SelectCall) (selected : CandidateSpec) (scored : List CandidateSpec)
    (c : Client) (before : Storage) (result : Bool × Storage)
    → selected_rows call.request_id before ≡ 0
    → episodes_of call.request_id before ≡ 0
    → Saved call.request_id 1 before result
    → Sound ((after_rows powered call selected scored c result).1).storage
after_rows-Sound powered call selected scored c before (false, st) none_yet no_episode h = h
after_rows-Sound powered call selected scored c before (true, st) none_yet no_episode
      (sound, still, counted, episodes) =
    let obs = build_observation c.env.one scored 5 in
    let saved =
      save_episode call.now call.request_id obs selected.index selected.composite_score st in
    after_episode-Sound powered call obs selected scored
      (record c { storage = st; env = set_candidates scored c.env }) saved sound
      (λ later e.
        let (sound', same, more) =
          save_episode-Recorded call.now call.request_id obs selected.index selected.composite_score
            st later e still sound in
        (sound', omega (arith, same, counted, none_yet), omega (arith, more, episodes, no_episode)))

after_choice-Sound :
    (powered : ℕ → ℕ) (call : SelectCall) (scored : List CandidateSpec) (c : Client)
    (chosen : Option CandidateSpec)
    → Begun call.request_id c.storage
    → ((r : CandidateSpec) → chosen ≡ some r → count (at_index r.index) scored ≡ 1)
    → Sound ((after_choice powered call scored c chosen).1).storage
after_choice-Sound powered call scored c none begun unique = begun.0
after_choice-Sound powered call scored c (some selected) (sound, still, none_yet, no_episode)
      unique =
    let st = c.storage in
    after_rows-Sound powered call selected scored c st
      (save_scored call.request_id selected.index scored st) none_yet no_episode
      (subst
        (λ n. Saved call.request_id n st (save_scored call.request_id selected.index scored st))
        (unique selected refl)
        (save_scored-Saved call.request_id selected.index scored st still sound))

after_scores-Sound :
    (powered : ℕ → ℕ) (call : SelectCall) (c : Client) (scored : Option (List CandidateSpec))
    → Begun call.request_id c.storage
    → score_candidates c.scorer call.weights (indexed 0 call.candidates) ≡ scored
    → Sound ((after_scores powered call c scored).1).storage
after_scores-Sound powered call c none begun e = begun.0
after_scores-Sound powered call c (some scored) begun e =
    after_choice-Sound powered call scored c
      (Selector.select c.selector call.selection_method scored) begun
      (λ r chosen.
        selected_unique c.scorer call.weights call.candidates scored c.selector
          call.selection_method r e chosen)

after_request-Sound :
    (powered : ℕ → ℕ) (call : SelectCall) (c : Client) (saved : Option Storage)
    → Sound c.storage
    → ((st : Storage) → saved ≡ some st → Begun call.request_id st)
    → Sound ((after_request powered call c saved).1).storage
after_request-Sound powered call c none sound begun = sound
after_request-Sound powered call c (some st) sound begun =
    after_scores-Sound powered call (record c { storage = st })
      (score_candidates c.scorer call.weights (indexed 0 call.candidates)) (begun st refl) refl

select-Sound :
    (powered : ℕ → ℕ) (call : SelectCall) (c : Client)
    → Sound c.storage
    → Sound ((select powered call c).1).storage
unfolding select
select-Sound powered call c sound = elim (Bool-cases (ltb (length call.candidates) 2)) [
  | inl few ↦ rw few sound
  | inr enough ↦ rw enough (
      after_request-Sound powered call c
        (save_request call.now call.request_id (length call.candidates) call.description
          call.customer_type c.storage)
        sound
        (λ st e.
          save_request-Begun call.now call.request_id (length call.candidates) call.description
            call.customer_type c.storage st e sound))
]

-- Calls one after another.
abbrev pub selects : (ℕ → ℕ) → List SelectCall → Client → Client
selects powered [] c = c
selects powered (call ∷ calls) c = selects powered calls (select powered call c).1

selects-Sound :
    (powered : ℕ → ℕ) (calls : List SelectCall) (c : Client)
    → Sound c.storage
    → Sound (selects powered calls c).storage
selects-Sound powered [] c sound = sound
selects-Sound powered (call ∷ calls) c sound =
    selects-Sound powered calls (select powered call c).1 (select-Sound powered call c sound)

-- After any calls of `select` on a client whose tables are empty, every request that is completed has
-- exactly one selected candidate and one episode, and every candidate and every episode belongs to a
-- request.
pub history-Sound :
    (powered : ℕ → ℕ) (calls : List SelectCall) (c : Client)
    → c.storage ≡ created
    → Sound (selects powered calls c).storage
history-Sound powered calls c empty =
    selects-Sound powered calls c (subst Sound (sym empty) (tt, (tt, tt)))
