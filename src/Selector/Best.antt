-- ===== src/Selector/Best.antt =====
-- Where the policy has no say, the composite scores decide.
use reinforce_spec.Prelude.{
  ℕ, zero, suc, ◌+◌, ◌<◌, ◌≤◌, ◌≡◌, ◌⊎◌, inl, inr, refl, sym, subst, ap, ◌∙◌, max, List, [], ◌∷◌,
  none, some, length, ltb, if◌then◌else◌, get_or, arith, Bool-cases,
}
use reinforce_spec.Types.{CandidateSpec, SelectionMethod}
use reinforce_spec.Selector.Defs.{
  Rounds, HybridSelector, best_of, argmax_from, argmax, apply_degradation, padded, composites,
  probabilities, blended_scores, at_place, select_hybrid, select_by_rl, rl_choice, select_with,
  select,
}
use reinforce_spec.Selector.Argmax.{argmax-greatest, argmax-first, argmax-inside, composites-score}
use reinforce_spec.Selector.Blending.{rl_score, argmax-Undominated}

-- The element is at some place of the list.
abbrev pub StandsIn : CandidateSpec → List CandidateSpec → Type 0
StandsIn x [] = ⊥
StandsIn x (c ∷ cs) = (x ≡ c) ⊎ StandsIn x cs

pub best_of-stands :
    (best : CandidateSpec) (cs : List CandidateSpec) → StandsIn (best_of best cs) (best ∷ cs)
unfolding best_of
best_of-stands best [] = inl refl
best_of-stands best (c ∷ cs) =
    let leader = if ltb best.composite_score c.composite_score then c else best in
    elim (best_of-stands leader cs) [
      | inr there ↦ inr (inr there)
      | inl e ↦ elim (Bool-cases (ltb best.composite_score c.composite_score)) [
        | inl less ↦ inr (inl (e ∙ rw less))
        | inr not_less ↦ inl (e ∙ rw not_less)
      ]
    ]

-- The leader so far and its place agree with the walk over the scores, when `pick` gives the
-- candidate of each place.
argmax_from-best_of :
    (pick : ℕ → CandidateSpec) (rest : List CandidateSpec) (best top i : ℕ)
    (leader fallback : CandidateSpec)
    → pick best ≡ leader
    → top ≡ leader.composite_score
    → ((j : ℕ) → j < length rest → pick (i + j) ≡ get_or rest j fallback)
    → pick (argmax_from best top i (composites rest)) ≡ best_of leader rest
unfolding argmax_from best_of
argmax_from-best_of pick [] best top i leader fallback e t h = e
argmax_from-best_of pick (c ∷ cs) best top i leader fallback e t h =
    let here : pick i ≡ c = ap pick {x = i} (omega arith) ∙ h 0 (omega arith) in
    argmax_from-best_of pick cs (if ltb top c.composite_score then i else best)
      (max top c.composite_score) (suc i)
      (if ltb leader.composite_score c.composite_score then c else leader) fallback
      (elim (Bool-cases (ltb leader.composite_score c.composite_score)) [
        | inl less ↦ rw (t, less) here
        | inr not_less ↦ rw (t, not_less) e
      ])
      (ground (arith, t))
      (λ j l. ap pick {x = suc i + j} (omega arith) ∙ h (suc j) (omega (arith, l)))

-- The place of the first candidate with the greatest composite score.
abbrev pub best_place : List CandidateSpec → ℕ
best_place cs = argmax (composites cs)

best_of-place :
    (c : CandidateSpec) (cs : List CandidateSpec)
    → best_of c cs ≡ at_place c cs (best_place (c ∷ cs))
unfolding argmax
best_of-place c cs = sym (
    argmax_from-best_of (at_place c cs) cs 0 c.composite_score 1 c c refl refl
      (λ j l. ap (λ i. get_or (c ∷ cs) i c) {x = 1 + j} {y = suc j} (omega arith)))

length-composites : (cs : List CandidateSpec) → length (composites cs) ≡ length cs
length-composites [] = refl
length-composites (c ∷ cs) = ap suc (length-composites cs)

-- Every candidate before the place has a lower composite score.
abbrev pub First : CandidateSpec → List CandidateSpec → ℕ → Type 0
First c cs i =
    (j : ℕ) → j < i → (at_place c cs j).composite_score < (at_place c cs i).composite_score

-- No candidate has a greater composite score.
abbrev pub Greatest : CandidateSpec → List CandidateSpec → ℕ → Type 0
Greatest c cs i =
    (j : ℕ)
    → j < length (c ∷ cs)
    → (at_place c cs j).composite_score ≤ (at_place c cs i).composite_score

best_place-best :
    (c : CandidateSpec) (cs : List CandidateSpec)
    → let i = best_place (c ∷ cs) in (i < length (c ∷ cs)) × First c cs i × Greatest c cs i
best_place-best c cs =
    let i = best_place (c ∷ cs) in
    let same = length-composites (c ∷ cs) in
    let inside : i < length (c ∷ cs) =
      omega (arith, same, argmax-inside (composites (c ∷ cs)) (omega (arith, same))) in
    let here = composites-score c (c ∷ cs) i inside in
    (
      inside,
      (λ j l. omega (
        arith,
        here,
        composites-score c (c ∷ cs) j (omega (arith, l, inside)),
        argmax-first (composites (c ∷ cs)) j l,
      )),
      λ j l. omega (
        arith,
        here,
        composites-score c (c ∷ cs) j l,
        argmax-greatest (composites (c ∷ cs)) j (omega (arith, l, same)),
      ),
    )

-- The policy has no say: it is absent, or the degradation level asks for scores alone.
abbrev pub NoSay : HybridSelector → SelectionMethod → Type 0
NoSay s method =
    (apply_degradation s.degradation_level method ≡ SelectionMethod.scoring_only)
    ⊎ (s.policy ≡ none)

padded-zero : (single : ℕ → ℕ) (n j : ℕ) → get_or (padded single n []) j 0 ≡ 0
padded-zero single zero j = refl
padded-zero single (suc n) zero = refl
padded-zero single (suc n) (suc j) = padded-zero single n j

silent :
    (s : HybridSelector) (cs : List CandidateSpec) (j : ℕ) → s.policy ≡ none → rl_score s cs j ≡ 0
silent s cs j absent =
    let nothing : probabilities s cs ≡ [] = rw absent refl in
    ap (λ probs. get_or (padded s.floats.single (length cs) probs) j 0) nothing
    ∙ padded-zero s.floats.single (length cs) j

hybrid-First :
    (s : HybridSelector) (c : CandidateSpec) (cs : List CandidateSpec)
    → s.policy ≡ none
    → Rounds s.floats
    → let i = argmax (blended_scores s (c ∷ cs)) in (i < length (c ∷ cs)) × First c cs i
hybrid-First s c cs absent r =
    let i = argmax (blended_scores s (c ∷ cs)) in
    let (inside, undominated) = argmax-Undominated s c cs r in
    (
      inside,
      λ j l.
          elim (Bool-cases
            (ltb (at_place c cs j).composite_score (at_place c cs i).composite_score)) [
              | inl lower ↦ ground (arith, lower)
              | inr not_lower ↦
                  let (after, _) =
                    undominated j (omega (arith, l, inside)) (ground (arith, not_lower))
                      (omega (arith, silent s (c ∷ cs) i absent, silent s (c ∷ cs) j absent)) in
                  absurd (omega (arith, after, l))
            ],
    )

-- The choice is first among its equals, and the greatest unless `hybrid` is in effect.
abbrev pub Best :
    HybridSelector → SelectionMethod → CandidateSpec → List CandidateSpec → CandidateSpec → Type 0
Best s method c cs chosen =
    (i : ℕ) × (i < length (c ∷ cs))
    × (chosen ≡ at_place c cs i)
    × First c cs i
    × ((method ≡ SelectionMethod.hybrid) ⊎ Greatest c cs i)

best_of-Best :
    (s : HybridSelector) (method : SelectionMethod) (c : CandidateSpec) (cs : List CandidateSpec)
    → Best s method c cs (best_of c cs)
best_of-Best s method c cs =
    let (inside, first, greatest_there) = best_place-best c cs in
    (best_place (c ∷ cs), inside, best_of-place c cs, first, inr greatest_there)

select_with-Best :
    (s : HybridSelector) (method : SelectionMethod) (c : CandidateSpec) (cs : List CandidateSpec)
    → s.policy ≡ none
    → Rounds s.floats
    → Best s method c cs (select_with s method c cs)
unfolding select_with select_by_rl select_hybrid
select_with-Best s SelectionMethod.scoring_only c cs absent r =
    best_of-Best s SelectionMethod.scoring_only c cs
select_with-Best s SelectionMethod.rl_only c cs absent r =
    subst (Best s SelectionMethod.rl_only c cs)
      (ap (λ policy. rl_choice s policy c cs) (sym absent))
      (best_of-Best s SelectionMethod.rl_only c cs)
select_with-Best s SelectionMethod.hybrid c cs absent r =
    let (inside, first) = hybrid-First s c cs absent r in
    (argmax (blended_scores s (c ∷ cs)), inside, refl, first, inl refl)

select_with-NoSay :
    (s : HybridSelector) (method : SelectionMethod) (c : CandidateSpec) (cs : List CandidateSpec)
    → NoSay s method
    → Rounds s.floats
    → let effective = apply_degradation s.degradation_level method in
      Best s effective c cs (select_with s effective c cs)
unfolding select_with
select_with-NoSay s method c cs (inl degraded) r =
    subst (λ m. Best s m c cs (select_with s m c cs)) (sym degraded)
      (best_of-Best s SelectionMethod.scoring_only c cs)
select_with-NoSay s method c cs (inr absent) r =
    select_with-Best s (apply_degradation s.degradation_level method) c cs absent r

-- With no say of the policy, and where rounding keeps the order of floats: the selection over two or
-- more candidates succeeds by every method, every candidate before the selected one has a lower
-- composite score, and unless `hybrid` is in effect no candidate has a greater one.
pub select-without_policy :
    (s : HybridSelector) (method : SelectionMethod) (c d : CandidateSpec) (cs : List CandidateSpec)
    → NoSay s method
    → Rounds s.floats
    → (chosen : CandidateSpec) × (select s method (c ∷ d ∷ cs) ≡ some chosen)
      × Best s (apply_degradation s.degradation_level method) c (d ∷ cs) chosen
unfolding select
select-without_policy s method c d cs no_say r =
    let effective = apply_degradation s.degradation_level method in
    (select_with s effective c (d ∷ cs), refl, select_with-NoSay s method c (d ∷ cs) no_say r)
