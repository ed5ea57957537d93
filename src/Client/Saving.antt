-- ===== src/Client/Saving.antt =====
-- The rows of scored candidates with identifiers of their own are all saved.
use reinforce_spec.Prelude.{
  ℕ, ◌+◌, ◌≤◌, ◌≡◌, refl, sym, ap, subst, ◌∙◌, true, false, String, List, [], ◌∷◌, ◌++◌, some,
  arith, string_eq, nat_eq,
}
use reinforce_spec.Prelude.Counting.{count, count-append}
use reinforce_spec.Types.{CandidateSpec}
use reinforce_spec.Persistence.{
  Storage, CandidateRow, has_request, has_spec, same_spec, save_candidate, save_dimension_scores,
  dimension_rows,
}
use reinforce_spec.Client.Defs.{row_of, save_scored}
use reinforce_spec.Client.Ranked.{at_index}
use reinforce_spec.Client.Repeated.{Known}

-- No two candidates, saved or still to be saved, share an identifier.
abbrev pub Room : String → List CandidateSpec → List CandidateRow → Type 0
Room id cs rows = (i : ℕ) → count (at_index i) cs + count (same_spec id i) rows ≤ 1

has_spec-absent :
    (id : String) (i : ℕ) (rows : List CandidateRow)
    → count (same_spec id i) rows ≡ 0
    → has_spec id i rows ≡ false
unfolding has_spec
has_spec-absent id i [] h = refl
has_spec-absent id i (row ∷ rows) h = ground (arith, h, has_spec-absent id i rows)

has_spec-last :
    (id : String) (row : CandidateRow) (rows : List CandidateRow)
    → row.request_id ≡ id
    → has_spec id row.index_pos (rows ++ row ∷ []) ≡ true
unfolding has_spec
has_spec-last id row [] same =
    ground (
      arith,
      same,
      string_eq.same_iff row.request_id id,
      nat_eq.same_iff row.index_pos row.index_pos,
    )
has_spec-last id row (first ∷ rows) same = ground (arith, has_spec-last id row rows same)

save_candidate-saved :
    (row : CandidateRow) (st : Storage)
    → has_spec row.request_id row.index_pos st.candidate_specs ≡ false
    → has_request row.request_id st.evaluation_requests ≡ true
    → save_candidate row st ≡ some (record st { candidate_specs = st.candidate_specs ++ row ∷ [] })
unfolding save_candidate
save_candidate-saved row st absent there = rw (absent, there) refl

-- The other tables do not matter to what follows.
abbrev pub SameRows : Storage → Storage → Type 0
SameRows st later =
    (later.evaluation_requests ≡ st.evaluation_requests)
    × (later.candidate_specs ≡ st.candidate_specs)

save_dimension_scores-saved :
    (id : String) (index : ℕ) (scores : List (String × ℕ)) (st : Storage)
    → has_spec id index st.candidate_specs ≡ true
    → (later : Storage) × (save_dimension_scores (id, index) scores st ≡ some later)
      × SameRows st later
unfolding save_dimension_scores
save_dimension_scores-saved id index [] st there = (st, refl, (refl, refl))
save_dimension_scores-saved id index (score ∷ scores) st there = (
  record st {
    dimension_scores = st.dimension_scores ++ dimension_rows (id, index) (score ∷ scores);
  },
  rw there refl,
  (refl, refl),
)

Room-next :
    (id : String) (selected : ℕ) (c : CandidateSpec) (cs : List CandidateSpec)
    (rows : List CandidateRow)
    → Room id (c ∷ cs) rows
    → Room id cs (rows ++ row_of id selected c ∷ [])
Room-next id selected c cs rows room i = ground (
  arith,
  room i,
  count-append (same_spec id i) rows (row_of id selected c ∷ []),
  string_eq.same_iff id id,
)

pub save_scored-saved :
    (id : String) (selected : ℕ) (cs : List CandidateSpec) (st : Storage)
    → Room id cs st.candidate_specs
    → Known id st
    → (later : Storage) × (save_scored id selected cs st ≡ (true, later))
      × (later.evaluation_requests ≡ st.evaluation_requests)
unfolding save_scored
save_scored-saved id selected [] st room there = (st, refl, refl)
save_scored-saved id selected (c ∷ cs) st room there =
    let row = row_of id selected c in
    let absent =
      has_spec-absent id c.index st.candidate_specs
        (ground (arith, room c.index, nat_eq.same_iff c.index c.index)) in
    let saved = save_candidate-saved row st absent there in
    let st1 = record st { candidate_specs = st.candidate_specs ++ row ∷ [] } in
    let (st2, scored, (requests, rows)) =
      save_dimension_scores-saved id c.index c.dimension_scores st1
        (has_spec-last id row st.candidate_specs refl) in
    let room2 : Room id cs st2.candidate_specs =
      subst (Room id cs) (sym rows) (Room-next id selected c cs st.candidate_specs room) in
    let (later, rest, same) =
      save_scored-saved id selected cs st2 room2 (ap (has_request id) requests ∙ there) in
    (later, rw (saved, scored) rest, same ∙ requests)
