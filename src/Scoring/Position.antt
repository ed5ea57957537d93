-- ===== src/Scoring/Position.antt =====
-- A judge that goes by the position alone decides nothing.
use reinforce_spec.Prelude.{
  ℕ, zero, suc, ◌≡◌, refl, Bool, false, String, List, [], ◌∷◌, some, length, min, leb, nat_beq,
  arith, take, Bool-cases, inl, inr, All, ◌⊎◌, ◌==◌, string_eq,
}
use reinforce_spec.Prelude.Sort.{sort_desc, insert_desc}
use reinforce_spec.Scoring.Defs.{
  CandidateSpec, PairwiseComparison, compared, judged, pairwise_compare, against, Judge, Wins,
  reranked, merge_rankings, rank, lower, pairwise_rank_top_k, win_counts, count_win,
}

-- No two candidates have the same index.
abbrev pub Apart : CandidateSpec → CandidateSpec → Type 0
Apart x y = nat_beq x.index y.index ≡ false

abbrev pub Distinct : List CandidateSpec → Type 0
Distinct [] = Unit {0}
Distinct (x ∷ xs) = All (Apart x) xs × Distinct xs

module _ (lower_one : CandidateSpec → CandidateSpec → Bool) where
  All-insert_desc :
      (w x : CandidateSpec) (ys : List CandidateSpec)
      → Apart w x
      → All (Apart w) ys
      → All (Apart w) (insert_desc lower_one x ys)
  unfolding insert_desc
  All-insert_desc w x [] h a = (h, tt)
  All-insert_desc w x (y ∷ ys) h (a, more) = ground (arith, All-insert_desc w x ys h more)

  insert_desc-Distinct :
      (x : CandidateSpec) (ys : List CandidateSpec)
      → All (Apart x) ys
      → Distinct ys
      → Distinct (insert_desc lower_one x ys)
  unfolding insert_desc
  insert_desc-Distinct x [] a d = (tt, tt)
  insert_desc-Distinct x (y ∷ ys) (a, more) (b, d) = elim (Bool-cases (lower_one x y)) [
    | inl h ↦ rw h (All-insert_desc y x ys (ground (arith, a)) b, insert_desc-Distinct x ys more d)
    | inr h ↦ rw h ((a, more), (b, d))
  ]

  All-sort_desc :
      (x : CandidateSpec) (ys : List CandidateSpec)
      → All (Apart x) ys
      → All (Apart x) (sort_desc lower_one ys)
  unfolding sort_desc
  All-sort_desc x [] a = tt
  All-sort_desc x (y ∷ ys) (a, more) =
      All-insert_desc x y (sort_desc lower_one ys) a (All-sort_desc x ys more)

  sort_desc-Distinct : (xs : List CandidateSpec) → Distinct xs → Distinct (sort_desc lower_one xs)
  unfolding sort_desc
  sort_desc-Distinct [] d = tt
  sort_desc-Distinct (x ∷ xs) (a, d) =
      insert_desc-Distinct x (sort_desc lower_one xs) (All-sort_desc x xs a)
        (sort_desc-Distinct xs d)

take-Distinct : (k : ℕ) (xs : List CandidateSpec) → Distinct xs → Distinct (take k xs)
take-Distinct zero xs d = tt
take-Distinct (suc k) [] d = tt
take-Distinct (suc k) (x ∷ xs) (a, d) = (within k xs a, take-Distinct k xs d)
  where
    within : (k : ℕ) (ys : List CandidateSpec) → All (Apart x) ys → All (Apart x) (take k ys)
    within zero ys a = tt
    within (suc k) [] a = tt
    within (suc k) (y ∷ ys) (a, more) = (a, within k ys more)

abbrev Undecided : PairwiseComparison → Type 0
Undecided comparison = comparison.is_consistent ≡ false

-- The comparison of two candidates by a judge that answers the same label in both orders.
same_label :
    (label : String) (a b : CandidateSpec)
    → (label ≡ "A") ⊎ (label ≡ "B")
    → Apart a b
    → (compared a.index b.index
        (label == "A")
        (label == "B")
        (label == "B")
        (label == "A")).is_consistent
      ≡ false
unfolding compared
same_label label a b (inl e) h = rw e h
same_label label a b (inr e) h = rw e (ground (arith, h))

count_win-tie :
    (comparison : PairwiseComparison) (wins : Wins)
    → Undecided comparison
    → count_win comparison wins ≡ wins
unfolding count_win
count_win-tie comparison wins h = rw h

no_wins :
    (comparisons : List PairwiseComparison)
    → All Undecided comparisons
    → win_counts comparisons [] ≡ []
unfolding win_counts
no_wins [] h = refl
no_wins (comparison ∷ rest) (h, more) = rw (count_win-tie comparison [] h) (no_wins rest more)

module _ (verdict : Judge) (label : String) (named : (label ≡ "A") ⊎ (label ≡ "B"))
    (by_position : (a b : CandidateSpec) → verdict a b ≡ some label) where
  against-Undecided :
      (a : CandidateSpec) (bs : List CandidateSpec) (rest : List PairwiseComparison)
      → All (Apart a) bs
      → All Undecided rest
      → All Undecided (against verdict a bs rest)
  unfolding against pairwise_compare judged
  against-Undecided a [] rest h r = r
  against-Undecided a (b ∷ bs) rest (h, more) r =
      rw (by_position a b, by_position b a)
        (same_label label a b named h, against-Undecided a bs rest more r)

  rank_top_k-Undecided :
      (cs : List CandidateSpec) → Distinct cs → All Undecided (pairwise_rank_top_k verdict cs)
  unfolding pairwise_rank_top_k
  rank_top_k-Undecided [] d = tt
  rank_top_k-Undecided (a ∷ rest) (h, d) =
      against-Undecided a rest (pairwise_rank_top_k verdict rest) h (rank_top_k-Undecided rest d)

  -- A judge that always prefers the candidate shown first, or always the one shown second, leaves
  -- the pointwise ranking of candidates with distinct indices as it is.
  pub position_judge-rank :
      (pairwise_top_k : ℕ) (candidates : List CandidateSpec)
      → Distinct candidates
      → rank verdict pairwise_top_k candidates ≡ sort_desc lower candidates
  unfolding rank merge_rankings reranked
  position_judge-rank k cs d =
      let sorted = sort_desc lower cs in
      let top = min k (length sorted) in
      let tie = no_wins (pairwise_rank_top_k verdict (take top sorted)) (
        rank_top_k-Undecided (take top sorted)
          (take-Distinct top sorted (sort_desc-Distinct lower cs d))) in
      elim (Bool-cases (leb 2 top)) [ inl enough ↦ rw (enough, tie) | inr few ↦ rw few ]
