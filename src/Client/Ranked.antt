-- ===== src/Client/Ranked.antt =====
-- Scoring and ranking keep the indices, and the selected candidate is one of those ranked.
use reinforce_spec.Prelude.{
  ℕ, zero, suc, ◌+◌, ◌%◌, ◌≤◌, ◌<◌, ◌≡◌, ◌⊎◌, inl, inr, refl, sym, ap, subst, ◌∙◌, Bool, String,
  List, [], ◌∷◌, Option, none, some, min, length, take, drop, get_or, leb, nat_beq, arith,
  Bool-cases, take-append-drop, nat_eq,
}
use mathlib.Core.Option.{some_inj, none-ne-some}
use reinforce_spec.Prelude.Dict.{lookup}
use reinforce_spec.Prelude.Sort.{sort_desc}
use reinforce_spec.Prelude.Counting.{count, count-append, count-sort_desc}
use reinforce_spec.Types.{CandidateSpec, SelectionMethod}
use reinforce_spec.Scoring.{
  Judge, Scorer, ScoringWeights, rank, lower, below, reranked, merge_rankings, win_counts,
  pairwise_rank_top_k, with_scores, all_scored, with_composites, pointwise_score_all,
  scores_by_candidate, results_of, scores_of, score_by, score_candidates, models_of,
}
use reinforce_spec.Selector.{
  HybridSelector, select, select_with, select_by_rl, rl_choice, PpoPolicy, select_hybrid,
  apply_degradation, at_place, argmax, blended_scores,
}
use reinforce_spec.Selector.Best.{StandsIn, best_of-stands}
use reinforce_spec.Environment.Features.{build_observation}
use reinforce_spec.Client.Defs.{indexed}

reranked-count :
    (p : CandidateSpec → Bool) (wins : List (ℕ × ℕ)) (k : ℕ) (cs : List CandidateSpec)
    → count p (reranked wins k cs) ≡ count p cs
unfolding reranked
reranked-count p [] k cs = refl
reranked-count p (win ∷ wins) k cs =
    count-append p (sort_desc (below (win ∷ wins)) (take k cs)) (drop k cs)
    ∙ ap (λ n. n + count p (drop k cs)) (count-sort_desc (below (win ∷ wins)) p (take k cs))
    ∙ sym (count-append p (take k cs) (drop k cs))
    ∙ ap (count p) (take-append-drop k cs)

pub rank-count :
    (p : CandidateSpec → Bool) (verdict : Judge) (k : ℕ) (cs : List CandidateSpec)
    → count p (rank verdict k cs) ≡ count p cs
unfolding rank merge_rankings
rank-count p verdict k cs =
    let sorted = sort_desc lower cs in
    let top_k = min k (length sorted) in
    let same = count-sort_desc lower p cs in
    elim (Bool-cases (leb 2 top_k)) [
      | inr few ↦ rw few same
      | inl enough ↦ rw enough (
          reranked-count p (win_counts (pairwise_rank_top_k verdict (take top_k sorted)) []) top_k
            sorted
          ∙ same)
    ]

-- The candidates with a given index.
abbrev pub at_index : ℕ → CandidateSpec → Bool
at_index index c = nat_beq c.index index

with_scores-index :
    (one : ℕ) (judges : List (List (String × ℕ))) (c : CandidateSpec)
    → (with_scores one judges c).index ≡ c.index
unfolding with_scores
with_scores-index one [] c = refl
with_scores-index one (scores ∷ more) c = refl

pub scored-count :
    (index one : ℕ) (w : ScoringWeights) (groups : List (ℕ × List (List (String × ℕ))))
    (cs : List CandidateSpec)
    → count (at_index index) (with_composites w (all_scored one groups cs))
      ≡ count (at_index index) cs
scored-count index one w groups [] = refl
scored-count index one w groups (c ∷ cs) = ground (
  arith,
  scored-count index one w groups cs,
  with_scores-index one (scores_of (lookup c.index groups)) c,
)

indexed-absent :
    (index i : ℕ) (cs : List CandidateSpec) → index < i → count (at_index index) (indexed i cs) ≡ 0
unfolding indexed
indexed-absent index i [] h = refl
indexed-absent index i (c ∷ cs) h = ground (arith, h, indexed-absent index (suc i) cs)

pub indexed_unique :
    (index i : ℕ) (cs : List CandidateSpec) → count (at_index index) (indexed i cs) ≤ 1
unfolding indexed
indexed_unique index i [] = omega arith
indexed_unique index i (c ∷ cs) =
    ground (arith, indexed_unique index (suc i) cs, indexed-absent index (suc i) cs)

pub score_by_unique :
    (s : Scorer) (w : ScoringWeights) (cs scored : List CandidateSpec)
    (models : Option (List String)) (index : ℕ)
    → score_by s w (indexed 0 cs) models ≡ some scored
    → count (at_index index) scored ≤ 1
unfolding score_by pointwise_score_all
score_by_unique s w cs scored none index e = absurd (none-ne-some _ e)
score_by_unique s w cs scored (some models) index e =
    let groups = scores_by_candidate (results_of s models (indexed 0 cs)) [] in
    let rated = with_composites w (all_scored s.one groups (indexed 0 cs)) in
    omega (
      arith,
      ap (count (at_index index)) (some_inj.0 e),
      rank-count (at_index index) s.verdict s.pairwise_top_k rated,
      scored-count index s.one w groups (indexed 0 cs),
      indexed_unique index 0 cs,
    )

get_or-stands :
    (c : CandidateSpec) (cs : List CandidateSpec) (d : CandidateSpec) (place : ℕ)
    → (get_or cs place d ≡ d) ⊎ StandsIn (get_or cs place d) cs
get_or-stands c [] d place = inl refl
get_or-stands c (x ∷ cs) d zero = inr (inl refl)
get_or-stands c (x ∷ cs) d (suc place) = elim (get_or-stands c cs d place) [
  | inl e ↦ inl e
  | inr h ↦ inr (inr h)
]

at_place-stands :
    (c : CandidateSpec) (cs : List CandidateSpec) (place : ℕ)
    → StandsIn (at_place c cs place) (c ∷ cs)
at_place-stands c cs place = elim (get_or-stands c (c ∷ cs) c place) [ inl e ↦ inl e | inr h ↦ h ]

rl_choice-stands :
    (s : HybridSelector) (policy : Option PpoPolicy) (c : CandidateSpec) (cs : List CandidateSpec)
    → StandsIn (rl_choice s policy c cs) (c ∷ cs)
rl_choice-stands s none c cs = best_of-stands c cs
rl_choice-stands s (some policy) c cs =
    at_place-stands c cs ((policy.predict (build_observation s.one (c ∷ cs) 5)).0 % length (c ∷ cs))

select_with-stands :
    (s : HybridSelector) (method : SelectionMethod) (c : CandidateSpec) (cs : List CandidateSpec)
    → StandsIn (select_with s method c cs) (c ∷ cs)
unfolding select_with select_by_rl select_hybrid
select_with-stands s SelectionMethod.scoring_only c cs = best_of-stands c cs
select_with-stands s SelectionMethod.rl_only c cs = rl_choice-stands s s.policy c cs
select_with-stands s SelectionMethod.hybrid c cs =
    at_place-stands c cs (argmax (blended_scores s (c ∷ cs)))

pub select-stands :
    (s : HybridSelector) (method : SelectionMethod) (cs : List CandidateSpec) (r : CandidateSpec)
    → select s method cs ≡ some r
    → StandsIn r cs
unfolding select
select-stands s method [] r e = absurd (none-ne-some _ e)
select-stands s method (c ∷ []) r e = inl (sym (some_inj.0 e))
select-stands s method (c ∷ d ∷ cs) r e =
    subst (λ r. StandsIn r (c ∷ d ∷ cs)) (some_inj.0 e)
      (select_with-stands s (apply_degradation s.degradation_level method) c (d ∷ cs))

StandsIn-count :
    (r : CandidateSpec) (cs : List CandidateSpec) → StandsIn r cs → 0 < count (at_index r.index) cs
StandsIn-count r [] h = absurd h
StandsIn-count r (c ∷ cs) (inl e) = ground (arith, ap (λ c. c.index) e)
StandsIn-count r (c ∷ cs) (inr h) = ground (arith, StandsIn-count r cs h)

-- Exactly one of the scored candidates has the index of the selected one.
pub selected_unique :
    (scorer : Scorer) (w : ScoringWeights) (cs scored : List CandidateSpec) (s : HybridSelector)
    (method : SelectionMethod) (r : CandidateSpec)
    → score_candidates scorer w (indexed 0 cs) ≡ some scored
    → select s method scored ≡ some r
    → count (at_index r.index) scored ≡ 1
unfolding score_candidates
selected_unique scorer w cs scored s method r e h = omega (
  arith,
  score_by_unique scorer w cs scored (models_of scorer) r.index e,
  StandsIn-count r scored (select-stands s method scored r h),
)
