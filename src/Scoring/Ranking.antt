-- ===== src/Scoring/Ranking.antt =====
-- The ranking loses no candidate, and orders the top by wins.
use mathlib.Core.List.{Perm}
use mathlib.Core.List.Perm
use reinforce_spec.Prelude.{
  ℕ, zero, suc, ◌+◌, ◌<◌, ◌≤◌, ◌⊎◌, inl, inr, Option, some, none, nat_beq, nat_eq, Bool-cases,
  Option-cases, if◌then◌else◌, ◌≡◌, refl, sym, Bool, true, false, List, [], ◌∷◌, ◌++◌, length, min,
  leb, arith, take, drop, take-append-drop, subst, All,
}
use reinforce_spec.Prelude.Sort.{sort_desc, sort_desc-perm, Descending, sort_desc-Descending}
use reinforce_spec.Prelude.Dict.{lookup, lookup-insert}
use reinforce_spec.Prelude.Counting.{length-sort_desc}
use reinforce_spec.Scoring.Defs.{
  CandidateSpec, Judge, Wins, below, reranked, merge_rankings, rank, lower, pairwise_rank_top_k,
  win_counts, count_win, wins_of, PairwiseComparison,
}

All-take {ℓ κ} : {A : Type ℓ} (P : A → Type κ) (k : ℕ) (xs : List A) → All P xs → All P (take k xs)
All-take P zero xs h = tt
All-take P (suc k) [] h = tt
All-take P (suc k) (x ∷ xs) (h, more) = (h, All-take P k xs more)

Descending-take {ℓ} :
    {A : Type ℓ} (under : A → A → Bool) (k : ℕ) (xs : List A)
    → Descending under xs
    → Descending under (take k xs)
Descending-take under zero xs d = tt
Descending-take under (suc k) [] d = tt
Descending-take under (suc k) (x ∷ xs) (a, d) =
    (All-take (λ y. under x y ≡ false) k xs a, Descending-take under k xs d)

below-Descending :
    (wins : Wins) (xs : List CandidateSpec) → Descending (below wins) (sort_desc (below wins) xs)
below-Descending wins xs =
    sort_desc-Descending (below wins) (λ x y h. ground (arith, h))
      (λ x y z h g. ground (arith, h, g)) xs

-- Without wins the order is that of the composite scores.
sorted-below : (xs : List CandidateSpec) → Descending lower xs → Descending (below []) xs
unfolding lookup
sorted-below [] d = tt
sorted-below (x ∷ xs) (a, d) = (each x xs a, sorted-below xs d)
  where
    each :
        (x : CandidateSpec) (ys : List CandidateSpec)
        → All (λ y. lower x y ≡ false) ys
        → All (λ y. below [] x y ≡ false) ys
    each x [] a = tt
    each x (y ∷ ys) (h, more) = (ground (arith, h), each x ys more)

-- Each element stands in a relation to all after it.
abbrev pub Follows {ℓ} : {A : Type ℓ} → (A → A → Type 0) → List A → Type 0
Follows P [] = Unit {0}
Follows P (x ∷ xs) = All (P x) xs × Follows P xs

Descending-Follows {ℓ} :
    {A : Type ℓ} (under : A → A → Bool) (P : A → A → Type 0)
    → ((x y : A) → under x y ≡ false → P x y)
    → (xs : List A) → Descending under xs
    → Follows P xs
Descending-Follows under P h [] d = tt
Descending-Follows {A = A} under P h (x ∷ xs) (a, d) =
    (each xs a, Descending-Follows under P h xs d)
  where
    each : (ys : List A) → All (λ y. under x y ≡ false) ys → All (P x) ys
    each [] a = tt
    each (y ∷ ys) (b, more) = (h x y b, each ys more)

-- The consistent comparisons that the candidate with this index has won.
abbrev pub won : ℕ → Bool → Option ℕ → ℕ
won index true (some winner) = if nat_beq winner index then 1 else 0
won index true none = 0
won index false winner = 0

abbrev pub wins_in : ℕ → List PairwiseComparison → ℕ
wins_in index [] = 0
wins_in index (c ∷ cs) = won index c.is_consistent c.winner_index + wins_in index cs

count_win-won :
    (index : ℕ) (c : PairwiseComparison) (wins : Wins)
    → wins_of (lookup index (count_win c wins))
      ≡ won index c.is_consistent c.winner_index + wins_of (lookup index wins)
unfolding count_win
count_win-won index c wins = elim (Bool-cases c.is_consistent) [
  | inr unequal ↦ rw unequal (omega arith)
  | inl equal ↦ elim (Option-cases c.winner_index) [
    | inl e ↦ rw (equal, e) (omega arith)
    | inr (w, e) ↦
        rw (equal, e)
          (ground (
            arith,
            lookup-insert w index (wins_of (lookup w wins) + 1) wins,
            nat_eq.same_iff w index,
          ))
  ]
]

win_counts-wins_in :
    (index : ℕ) (cs : List PairwiseComparison) (wins : Wins)
    → wins_of (lookup index (win_counts cs wins)) ≡ wins_in index cs + wins_of (lookup index wins)
unfolding win_counts
win_counts-wins_in index [] wins = omega arith
win_counts-wins_in index (c ∷ cs) wins =
    omega (arith, win_counts-wins_in index cs (count_win c wins), count_win-won index c wins)

-- A top section in the order of the wins before the untouched rest.
abbrev pub Reranked : Wins → ℕ → List CandidateSpec → List CandidateSpec → Type 0
Reranked wins top_k sorted result =
    (top : List CandidateSpec) × ((result ≡ top ++ drop top_k sorted)
      × Perm top (take top_k sorted)
      × Descending (below wins) top)

reranked-Reranked :
    (wins : Wins) (top_k : ℕ) (sorted : List CandidateSpec)
    → Descending lower sorted
    → Reranked wins top_k sorted (reranked wins top_k sorted)
unfolding reranked
reranked-Reranked [] k cs d = (
  take k cs,
  (
    sym (take-append-drop k cs),
    Perm.refl (take k cs),
    sorted-below (take k cs) (Descending-take lower k cs d),
  ),
)
reranked-Reranked (w ∷ ws) k cs d = (
  sort_desc (below (w ∷ ws)) (take k cs),
  (refl, sort_desc-perm (below (w ∷ ws)) (take k cs), below-Descending (w ∷ ws) (take k cs)),
)

pub sorted-Descending : (cs : List CandidateSpec) → Descending lower (sort_desc lower cs)
sorted-Descending cs =
    sort_desc-Descending lower (λ x y h. ground (arith, h)) (λ x y z h g. ground (arith, h, g)) cs

-- `x` has more wins than `y`, or as many and no lower a composite score.
abbrev pub Ahead : List PairwiseComparison → CandidateSpec → CandidateSpec → Type 0
Ahead comparisons x y =
    (wins_in y.index comparisons < wins_in x.index comparisons)
    ⊎ ((wins_in y.index comparisons ≡ wins_in x.index comparisons)
        × (y.composite_score ≤ x.composite_score))

below-Ahead :
    (comparisons : List PairwiseComparison) (x y : CandidateSpec)
    → below (win_counts comparisons []) x y ≡ false
    → Ahead comparisons x y
unfolding lookup
below-Ahead comparisons x y h =
    ground (
      arith,
      h,
      win_counts-wins_in x.index comparisons [],
      win_counts-wins_in y.index comparisons [],
    )

-- The candidates by their composite scores, and the top of them by the wins.
abbrev pub Ranked : Judge → ℕ → List CandidateSpec → List CandidateSpec → Type 0
Ranked verdict top_k candidates result =
    (sorted : List CandidateSpec) × (top : List CandidateSpec) × Perm sorted candidates
    × Follows (λ x y. y.composite_score ≤ x.composite_score) sorted
    × (result ≡ top ++ drop top_k sorted)
    × Perm top (take top_k sorted)
    × Follows (Ahead (pairwise_rank_top_k verdict (take top_k sorted))) top

pub rank-Ranked :
    (verdict : Judge) (pairwise_top_k : ℕ) (candidates : List CandidateSpec)
    → 2 ≤ pairwise_top_k
    → 2 ≤ length candidates
    → Ranked verdict
        (min pairwise_top_k (length candidates))
        candidates
        (rank verdict pairwise_top_k candidates)
unfolding rank merge_rankings
rank-Ranked verdict k cs some_compared some_there =
    let sorted = sort_desc lower cs in
    let same = length-sort_desc lower cs in
    let top_k = min k (length sorted) in
    let comparisons = pairwise_rank_top_k verdict (take top_k sorted) in
    let (top, (e, p, d)) =
      reranked-Reranked (win_counts comparisons []) top_k sorted (sorted-Descending cs) in
    let enough : leb 2 top_k ≡ true = ground (arith, some_compared, some_there, same) in
    subst (λ n. Ranked verdict (min k n) cs (rank verdict k cs)) same
      (rw (enough, rank)
        (
          sorted,
          top,
          sort_desc-perm lower cs,
          Descending-Follows lower (λ x y. y.composite_score ≤ x.composite_score)
              (λ x y h. ground (arith, h)) sorted (sorted-Descending cs),
          e,
          p,
          Descending-Follows (below (win_counts comparisons [])) (Ahead comparisons)
              (below-Ahead comparisons) top d,
        ))
