-- ===== src/Scoring/Defs.antt =====
-- `verdict a b` is the winner that `_parse_pairwise_winner` reads when `a` is shown first and `b`
-- second, or none if that completion raises.
use reinforce_spec.Prelude.{
  ℕ, ◌+◌, Bool, ◌&&◌, ◌||◌, String, List, [], ◌∷◌, ◌++◌, Option, none, some, length, min, nat_beq,
  ltb, leb, if◌then◌else◌, ◌==◌, string_eq, nat_eq, take, drop,
}
use reinforce_spec.Prelude.Dict.{lookup, insert}
use reinforce_spec.Prelude.Sort.{sort_desc}
pub use reinforce_spec.Types.{CandidateSpec}

pub record PairwiseComparison : Type 0 where
  pub spec_a_index : ℕ
  pub spec_b_index : ℕ
  pub a_preferred_forward : Bool
  pub b_preferred_forward : Bool
  pub a_preferred_reversed : Bool
  pub b_preferred_reversed : Bool
  pub is_consistent : Bool
  pub winner_index : Option ℕ

-- The constructor, with what `__post_init__` computes.
unfoldable pub compared : ℕ → ℕ → Bool → Bool → Bool → Bool → PairwiseComparison
compared a b forward_a forward_b reversed_a reversed_b =
    let forward_winner = if forward_a then a else b in
    let reverse_winner = if reversed_a then a else b in
    record {
      spec_a_index = a;
      spec_b_index = b;
      a_preferred_forward = forward_a;
      b_preferred_forward = forward_b;
      a_preferred_reversed = reversed_a;
      b_preferred_reversed = reversed_b;
      is_consistent = nat_beq forward_winner reverse_winner;
      winner_index = (if nat_beq forward_winner reverse_winner then some forward_winner else none);
    }

abbrev pub Judge : Type 0
Judge = CandidateSpec → CandidateSpec → Option String

-- The labels are swapped in the reversed order.
unfoldable pub judged :
    CandidateSpec → CandidateSpec → Option String → Option String → Option PairwiseComparison
judged a b (some forward) (some reversed) =
    some (
      compared a.index b.index (forward == "A") (forward == "B") (reversed == "B")
        (reversed == "A"))
judged a b (some forward) none = none
judged a b none reversed = none

unfoldable pub pairwise_compare : Judge → CandidateSpec → CandidateSpec → Option PairwiseComparison
unfolding judged
pairwise_compare verdict a b = judged a b (verdict a b) (verdict b a)

abbrev pub kept : Option PairwiseComparison → List PairwiseComparison → List PairwiseComparison
kept none rest = rest
kept (some comparison) rest = comparison ∷ rest

-- The inner loop: one candidate against those after it. A comparison that raises is left out.
unfoldable pub against :
    Judge → CandidateSpec → List CandidateSpec → List PairwiseComparison → List PairwiseComparison
against verdict a [] rest = rest
against verdict a (b ∷ bs) rest = kept (pairwise_compare verdict a b) (against verdict a bs rest)

unfoldable pub pairwise_rank_top_k : Judge → List CandidateSpec → List PairwiseComparison
pairwise_rank_top_k verdict [] = []
pairwise_rank_top_k verdict (a ∷ rest) = against verdict a rest (pairwise_rank_top_k verdict rest)

abbrev pub Wins : Type 0
Wins = List (ℕ × ℕ)

-- `win_counts.get(index, 0)`
abbrev pub wins_of : Option ℕ → ℕ
wins_of none = 0
wins_of (some n) = n

-- A comparison with a winner, if it is consistent.
unfoldable pub count_win : PairwiseComparison → Wins → Wins
count_win comparison wins =
    if comparison.is_consistent
    then (elim comparison.winner_index [
      | none ↦ wins
      | some w ↦ insert w (wins_of (lookup w wins) + 1) wins
    ])
    else wins

unfoldable pub win_counts : List PairwiseComparison → Wins → Wins
win_counts [] wins = wins
win_counts (comparison ∷ rest) wins = win_counts rest (count_win comparison wins)

-- `(win_counts.get(c.index, 0), c.composite_score)` is below that of the other candidate.
abbrev pub below : Wins → CandidateSpec → CandidateSpec → Bool
below wins x y =
    let wx = wins_of (lookup x.index wins) in
    let wy = wins_of (lookup y.index wins) in
    ltb wx wy || (nat_beq wx wy && ltb x.composite_score y.composite_score)

unfoldable pub reranked : Wins → ℕ → List CandidateSpec → List CandidateSpec
reranked [] top_k candidates = candidates
reranked (win ∷ wins) top_k candidates =
    sort_desc (below (win ∷ wins)) (take top_k candidates) ++ drop top_k candidates

unfoldable pub merge_rankings :
    List CandidateSpec → List PairwiseComparison → ℕ → List CandidateSpec
unfolding win_counts reranked
merge_rankings candidates comparisons top_k = reranked (win_counts comparisons []) top_k candidates

abbrev pub lower : CandidateSpec → CandidateSpec → Bool
lower x y = ltb x.composite_score y.composite_score

-- The end of `score_candidates`, once the composite scores are there.
unfoldable pub rank : Judge → ℕ → List CandidateSpec → List CandidateSpec
unfolding merge_rankings
rank verdict pairwise_top_k candidates =
    let sorted = sort_desc lower candidates in
    let top_k = min pairwise_top_k (length sorted) in
    if leb 2 top_k
    then merge_rankings sorted (pairwise_rank_top_k verdict (take top_k sorted)) top_k
    else sorted
