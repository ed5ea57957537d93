-- ===== src/Selector/Blending.antt =====
-- What `hybrid` never passes over, whatever the policy answers.
use reinforce_spec.Prelude.{
  ℕ, zero, suc, ◌<◌, ◌≤◌, ◌≡◌, refl, ap, List, [], ◌∷◌, some, length, get_or, arith,
}
use reinforce_spec.Types.{CandidateSpec, SelectionMethod}
use reinforce_spec.Selector.Defs.{
  Floats, Rounds, HybridSelector, argmax, greatest, padded, effective_weight, max_score, blend,
  blended, composites, probabilities, rl_scores, blended_scores, at_place, select_hybrid, select,
  select_with, apply_degradation,
}
use reinforce_spec.Selector.Argmax.{argmax-greatest, argmax-first, argmax-inside, composites-score}

blended-at :
    (f : Floats) (weight most : ℕ) (cs : List CandidateSpec) (probs : List ℕ) (j : ℕ)
    → j < length cs
    → let rl = padded f.single (length cs) probs in
      get_or (blended f weight most (composites cs) rl) j 0
      ≡ blend f weight most (get_or (composites cs) j 0) (get_or rl j 0)
unfolding blended
blended-at f weight most [] probs j l = absurd (ground (arith, l))
blended-at f weight most (c ∷ cs) [] zero l = refl
blended-at f weight most (c ∷ cs) (p ∷ probs) zero l = refl
blended-at f weight most (c ∷ cs) [] (suc j) l = blended-at f weight most cs [] j (omega (arith, l))
blended-at f weight most (c ∷ cs) (p ∷ probs) (suc j) l =
    blended-at f weight most cs probs j (omega (arith, l))

length-blended :
    (f : Floats) (weight most : ℕ) (cs : List CandidateSpec) (probs : List ℕ)
    → length (blended f weight most (composites cs) (padded f.single (length cs) probs)) ≡ length cs
unfolding blended
length-blended f weight most [] probs = refl
length-blended f weight most (c ∷ cs) [] = ap suc (length-blended f weight most cs [])
length-blended f weight most (c ∷ cs) (p ∷ probs) = ap suc (length-blended f weight most cs probs)

length-blended_scores :
    (s : HybridSelector) (cs : List CandidateSpec) → length (blended_scores s cs) ≡ length cs
unfolding blended_scores
length-blended_scores s cs =
    length-blended s.floats (effective_weight s (greatest (rl_scores s cs)))
      (max_score s (composites cs)) cs (probabilities s cs)

-- No lower a score and no lower a probability make no smaller an entry.
blend-le :
    (f : Floats) (weight most score score' p p' : ℕ)
    → Rounds f
    → score ≤ score'
    → p ≤ p'
    → blend f weight most score p ≤ blend f weight most score' p'
blend-le f weight most score score' p p' r better likelier =
    r.plus-le (f.times (f.rest_of weight) (f.quotient score most))
      (f.times (f.rest_of weight) (f.quotient score' most)) (f.times weight p) (f.times weight p')
      (r.times-le (f.rest_of weight) (f.quotient score most) (f.quotient score' most)
        (r.quotient-le score score' most better))
      (r.times-le weight p p' likelier)

-- The probability of the candidate at a place, as a float32.
abbrev pub rl_score : HybridSelector → List CandidateSpec → ℕ → ℕ
rl_score s candidates j = get_or (rl_scores s candidates) j 0

abbrev pub blended_score : HybridSelector → List CandidateSpec → ℕ → ℕ
blended_score s candidates j = get_or (blended_scores s candidates) j 0

blended_score-le :
    (s : HybridSelector) (c : CandidateSpec) (cs : List CandidateSpec) (i j : ℕ)
    → Rounds s.floats
    → i < length (c ∷ cs)
    → j < length (c ∷ cs)
    → (at_place c cs i).composite_score ≤ (at_place c cs j).composite_score
    → rl_score s (c ∷ cs) i ≤ rl_score s (c ∷ cs) j
    → blended_score s (c ∷ cs) i ≤ blended_score s (c ∷ cs) j
unfolding blended_scores
blended_score-le s c cs i j r in_i in_j better likelier =
    let probs = probabilities s (c ∷ cs) in
    let scores = composites (c ∷ cs) in
    let weight = effective_weight s (greatest (rl_scores s (c ∷ cs))) in
    let most = max_score s scores in
    let same_i = composites-score c (c ∷ cs) i in_i in
    let same_j = composites-score c (c ∷ cs) j in_j in
    omega (
      arith,
      blended-at s.floats weight most (c ∷ cs) probs i in_i,
      blended-at s.floats weight most (c ∷ cs) probs j in_j,
      blend-le s.floats weight most (get_or scores i 0) (get_or scores j 0) (rl_score s (c ∷ cs) i)
          (rl_score s (c ∷ cs) j) r (omega (arith, same_i, same_j, better)) likelier,
    )

-- A candidate with no lower a composite score and no lower a probability than the one at `i` stands at
-- `i` or after it, and has the same blended score.
abbrev pub Undominated : HybridSelector → CandidateSpec → List CandidateSpec → ℕ → Type 0
Undominated s c cs i =
    (j : ℕ)
    → j < length (c ∷ cs)
    → (at_place c cs i).composite_score ≤ (at_place c cs j).composite_score
    → rl_score s (c ∷ cs) i ≤ rl_score s (c ∷ cs) j
    → (i ≤ j) × (blended_score s (c ∷ cs) j ≡ blended_score s (c ∷ cs) i)

pub argmax-Undominated :
    (s : HybridSelector) (c : CandidateSpec) (cs : List CandidateSpec)
    → Rounds s.floats
    → let i = argmax (blended_scores s (c ∷ cs)) in (i < length (c ∷ cs)) × Undominated s c cs i
argmax-Undominated s c cs r =
    let scores = blended_scores s (c ∷ cs) in
    let i = argmax scores in
    let same = length-blended_scores s (c ∷ cs) in
    let inside : i < length (c ∷ cs) =
      omega (arith, same, argmax-inside scores (omega (arith, same))) in
    (
      inside,
      λ j l better likelier.
          let at_least = blended_score-le s c cs i j r inside l better likelier in
          let at_most = argmax-greatest scores j (omega (arith, l, same)) in
          (
            not_before i j (get_or scores j 0) (get_or scores i 0) (argmax-first scores j) at_least,
            omega (arith, at_least, at_most),
          ),
    )
  where
    not_before : (i j x y : ℕ) → (j < i → x < y) → y ≤ x → i ≤ j
    not_before i j x y before h = ground (arith, before, h)

pub hybrid-Undominated :
    (s : HybridSelector) (c d : CandidateSpec) (cs : List CandidateSpec)
    → apply_degradation s.degradation_level SelectionMethod.hybrid ≡ SelectionMethod.hybrid
    → Rounds s.floats
    → (i : ℕ) × (i < length (c ∷ d ∷ cs))
      × (select s SelectionMethod.hybrid (c ∷ d ∷ cs) ≡ some (at_place c (d ∷ cs) i))
      × Undominated s c (d ∷ cs) i
unfolding select select_with select_hybrid
hybrid-Undominated s c d cs undegraded r =
    let (inside, undominated) = argmax-Undominated s c (d ∷ cs) r in
    (
      argmax (blended_scores s (c ∷ d ∷ cs)),
      inside,
      ap (λ m. some (select_with s m c (d ∷ cs))) undegraded,
      undominated,
    )
