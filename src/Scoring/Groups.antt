-- ===== src/Scoring/Groups.antt =====
-- Grouping the scores by candidate and picking one dimension keeps them in bounds.
use reinforce_spec.Prelude.{
  ℕ, ◌+◌, ◌≡◌, refl, ap, ◌∙◌, arith, length, length-append, nat_beq, if◌then◌else◌, inl, inr,
  String, List, [], ◌∷◌, ◌++◌, Option, none, some, ◌==◌, All, string_eq, nat_eq, Bool-cases,
}
use reinforce_spec.Prelude.Dict.{lookup, insert, lookup-insert}
use reinforce_spec.Prelude.Counting.{All-append}
use reinforce_spec.Scoring.Trimming.{with_value, values_of}
use reinforce_spec.Scoring.Pointwise.{Result, scores_of, scores_by_candidate}
use reinforce_spec.Scoring.Answers.{Within, Scored, ScoredResults}

-- The scores of each candidate's group are in bounds.
abbrev pub ScoredGroups : ℕ → List (ℕ × List (List (String × ℕ))) → Type 0
ScoredGroups one = All (λ g. All (Scored one) (g.1))

pub scores_of-lookup :
    (one index : ℕ) (groups : List (ℕ × List (List (String × ℕ))))
    → ScoredGroups one groups
    → All (Scored one) (scores_of (lookup index groups))
unfolding lookup
scores_of-lookup one index [] a = tt
scores_of-lookup one index ((j, scores) ∷ groups) (a, more) = elim (Bool-cases (j == index)) [
  | inl same ↦ rw same a
  | inr other ↦ rw other (scores_of-lookup one index groups more)
]

insert-Scored :
    (one index : ℕ) (scores : List (List (String × ℕ)))
    (groups : List (ℕ × List (List (String × ℕ))))
    → All (Scored one) scores
    → ScoredGroups one groups
    → ScoredGroups one (insert index scores groups)
unfolding insert
insert-Scored one index scores [] h a = (h, tt)
insert-Scored one index scores ((j, old) ∷ groups) h (a, more) = elim (Bool-cases (j == index)) [
  | inl same ↦ rw same (h, more)
  | inr other ↦ rw other (a, insert-Scored one index scores groups h more)
]

pub scores_by_candidate-Scored :
    (one : ℕ) (results : List Result) (groups : List (ℕ × List (List (String × ℕ))))
    → ScoredResults one results
    → ScoredGroups one groups
    → ScoredGroups one (scores_by_candidate results groups)
unfolding scores_by_candidate
scores_by_candidate-Scored one [] groups r a = a
scores_by_candidate-Scored one ((index, scores) ∷ rest) groups (r, more) a =
    let before = scores_of (lookup index groups) in
    scores_by_candidate-Scored one rest (insert index (before ++ scores ∷ []) groups) more (
      insert-Scored one index (before ++ scores ∷ []) groups
        (All-append (Scored one) before (scores ∷ []) (scores_of-lookup one index groups a) (r, tt))
        a)

-- How many judges' answers there are for a candidate.
abbrev pub answers_for : ℕ → List Result → ℕ
answers_for index [] = 0
answers_for index ((i, scores) ∷ rest) = (if nat_beq i index then 1 else 0) + answers_for index rest

-- A candidate's group has as many entries as there are answers for it.
pub length-scores_by_candidate :
    (index : ℕ) (results : List Result) (groups : List (ℕ × List (List (String × ℕ))))
    → length (scores_of (lookup index (scores_by_candidate results groups)))
      ≡ length (scores_of (lookup index groups)) + answers_for index results
unfolding scores_by_candidate
length-scores_by_candidate index [] groups = omega arith
length-scores_by_candidate index ((i, scores) ∷ rest) groups =
    let before = scores_of (lookup i groups) in
    let ih = length-scores_by_candidate index rest (insert i (before ++ scores ∷ []) groups) in
    let found = lookup-insert i index (before ++ scores ∷ []) groups in
    elim (Bool-cases (i == index)) [
      | inl same ↦
          let e : i ≡ index = (nat_eq.same_iff i index).0 same in
          ih
          ∙ ap (λ o. length (scores_of o) + answers_for index rest)
              {y = some (before ++ scores ∷ [])} (found ∙ rw same refl)
          ∙ ap (λ n. n + answers_for index rest) (length-append before (scores ∷ []))
          ∙ ap (λ k. length (scores_of (lookup k groups)) + 1 + answers_for index rest) e
          ∙ rw same (omega arith)
      | inr other ↦
          ih
          ∙ ap (λ o. length (scores_of o) + answers_for index rest) {y = lookup index groups}
              (found ∙ rw other refl)
          ∙ rw other (omega arith)
    ]

abbrev pub WithinIfAny : ℕ → Option ℕ → Type 0
WithinIfAny one none = Unit {0}
WithinIfAny one (some score) = Within one score

pub lookup-Within :
    (one : ℕ) (dim : String) (scores : List (String × ℕ))
    → Scored one scores
    → WithinIfAny one (lookup dim scores)
unfolding lookup
lookup-Within one dim [] a = tt
lookup-Within one dim ((d, score) ∷ rest) (a, more) = elim (Bool-cases (d == dim)) [
  | inl same ↦ rw (same, WithinIfAny) a
  | inr other ↦ rw (other, WithinIfAny) (lookup-Within one dim rest more)
]

with_value-Within :
    (one : ℕ) (v : Option ℕ) (values : List ℕ)
    → WithinIfAny one v
    → All (Within one) values
    → All (Within one) (with_value v values)
with_value-Within one none values h a = a
with_value-Within one (some v) values h a = (h, a)

pub values_of-Within :
    (one : ℕ) (dim : String) (judges : List (List (String × ℕ)))
    → All (Scored one) judges
    → All (Within one) (values_of dim judges)
unfolding values_of
values_of-Within one dim [] a = tt
values_of-Within one dim (scores ∷ rest) (a, more) =
    with_value-Within one (lookup dim scores) (values_of dim rest) (lookup-Within one dim scores a)
      (values_of-Within one dim rest more)
