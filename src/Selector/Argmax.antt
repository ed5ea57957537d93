-- ===== src/Selector/Argmax.antt =====
-- The place that `argmax` returns.
use reinforce_spec.Prelude.{
  ℕ, zero, suc, ◌+◌, ◌<◌, ◌≤◌, ◌≡◌, refl, ap, ◌∙◌, max, List, [], ◌∷◌, length, ltb, if◌then◌else◌,
  get_or, arith, Bool-cases, inl, inr,
}
use reinforce_spec.Types.{CandidateSpec}
use reinforce_spec.Selector.Defs.{argmax_from, argmax, composites}

each-AtMost :
    (x : ℕ) (xs : List ℕ) {n : ℕ}
    → x ≤ n
    → ((j : ℕ) → j < length xs → get_or xs j 0 ≤ n)
    → (j : ℕ) → j < length (x ∷ xs)
    → get_or (x ∷ xs) j 0 ≤ n
each-AtMost x xs first rest zero l = first
each-AtMost x xs first rest (suc j) l = rest j (omega (arith, l))

-- The place of the greatest entry: `pick` gives the entry of each place.
argmax_from-greatest :
    (pick : ℕ → ℕ) (xs : List ℕ) (best top i : ℕ)
    → pick best ≡ top
    → ((j : ℕ) → j < length xs → pick (i + j) ≡ get_or xs j 0)
    → (top ≤ pick (argmax_from best top i xs))
      × ((j : ℕ) → j < length xs → get_or xs j 0 ≤ pick (argmax_from best top i xs))
unfolding argmax_from
argmax_from-greatest pick [] best top i e h = (omega (arith, e), λ j l. omega (arith, l))
argmax_from-greatest pick (x ∷ xs) best top i e h =
    let here : pick i ≡ x = ap pick {x = i} (omega arith) ∙ h 0 (omega arith) in
    let (leads, rest) =
      argmax_from-greatest pick xs (if ltb top x then i else best) (max top x) (suc i)
        (ground (arith, e, here))
        (λ j l. ap pick {x = suc i + j} (omega arith) ∙ h (suc j) (omega (arith, l))) in
    (omega (arith, leads), each-AtMost x xs (omega (arith, leads)) rest)

pub argmax-greatest :
    (xs : List ℕ) (j : ℕ) → j < length xs → get_or xs j 0 ≤ get_or xs (argmax xs) 0
unfolding argmax
argmax-greatest [] j h = absurd (ground (arith, h))
argmax-greatest (x ∷ xs) j h =
    let (first, rest) =
      argmax_from-greatest (λ i. get_or (x ∷ xs) i 0) xs 0 x 1 refl
        (λ j l. ap (λ i. get_or (x ∷ xs) i 0) {x = 1 + j} {y = suc j} (omega arith)) in
    each-AtMost x xs first rest j h

up_to :
    (pick : ℕ → ℕ) (i most : ℕ)
    → ((j : ℕ) → j < i → pick j ≤ most)
    → pick i ≤ most
    → (j : ℕ) → j < suc i
    → pick j ≤ most
up_to pick i most below here j l = elim (Bool-cases (ltb j i)) [
  | inl less ↦ below j (ground (arith, less))
  | inr last ↦
      let same : pick j ≡ pick i = ap pick {x = j} {y = i} (ground (arith, last, l)) in
      omega (arith, same, here)
]

-- Every entry before it is smaller.
argmax_from-first :
    (pick : ℕ → ℕ) (xs : List ℕ) (best top i : ℕ)
    → pick best ≡ top
    → best < i
    → ((j : ℕ) → j < i → pick j ≤ top)
    → ((j : ℕ) → j < best → pick j < top)
    → ((j : ℕ) → j < length xs → pick (i + j) ≡ get_or xs j 0)
    → (j : ℕ) → j < argmax_from best top i xs
    → pick j < pick (argmax_from best top i xs)
unfolding argmax_from
argmax_from-first pick [] best top i e inside below first h = λ j l. omega (arith, e, first j l)
argmax_from-first pick (x ∷ xs) best top i e inside below first h =
    let here : pick i ≡ x = ap pick {x = i} (omega arith) ∙ h 0 (omega arith) in
    argmax_from-first pick xs (if ltb top x then i else best) (max top x) (suc i)
      (ground (arith, e, here)) (ground (arith, inside))
      (up_to pick i (max top x) (λ j l. omega (arith, below j l)) (omega (arith, here)))
      (λ j l. ground (arith, l, below j, first j))
      (λ j l. ap pick {x = suc i + j} (omega arith) ∙ h (suc j) (omega (arith, l)))

pub argmax-first : (xs : List ℕ) (j : ℕ) → j < argmax xs → get_or xs j 0 < get_or xs (argmax xs) 0
unfolding argmax
argmax-first [] j h = absurd (omega (arith, h))
argmax-first (x ∷ xs) j h =
    argmax_from-first (λ i. get_or (x ∷ xs) i 0) xs 0 x 1 refl (omega arith)
      (up_to (λ i. get_or (x ∷ xs) i 0) 0 x (λ j l. absurd (omega (arith, l))) (omega arith))
      (λ j l. absurd (omega (arith, l)))
      (λ j l. ap (λ i. get_or (x ∷ xs) i 0) {x = 1 + j} {y = suc j} (omega arith)) j h

argmax_from-inside :
    (xs : List ℕ) (best top i : ℕ) → best < i → argmax_from best top i xs < i + length xs
unfolding argmax_from
argmax_from-inside [] best top i h = omega (arith, h)
argmax_from-inside (x ∷ xs) best top i h = omega (
  arith,
  argmax_from-inside xs (if ltb top x then i else best) (max top x) (suc i) (ground (arith, h)),
)

pub argmax-inside : (xs : List ℕ) → 0 < length xs → argmax xs < length xs
unfolding argmax
argmax-inside [] h = h
argmax-inside (x ∷ xs) h = omega (arith, argmax_from-inside xs 0 x 1 (omega arith))

pub composites-score :
    (c : CandidateSpec) (cs : List CandidateSpec) (j : ℕ)
    → j < length cs
    → get_or (composites cs) j 0 ≡ (get_or cs j c).composite_score
composites-score c [] j l = absurd (ground (arith, l))
composites-score c (x ∷ cs) zero l = refl
composites-score c (x ∷ cs) (suc j) l = composites-score c cs j (omega (arith, l))
