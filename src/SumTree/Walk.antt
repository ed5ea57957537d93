-- ===== src/SumTree/Walk.antt =====
-- The logarithmic walk of `sample` finds what a scan over the leaves finds.
use reinforce_spec.Prelude.{
  ℕ, zero, suc, ◌+◌, ◌-◌, ◌*◌, ◌<◌, ◌≤◌, ◌≡◌, refl, sym, ◌∙◌, List, [], ◌∷◌, ◌++◌, length, arith,
  leb, if◌then◌else◌, Bool-cases, inl, inr,
}
use reinforce_spec.SumTree.Defs.{at, walk}
use reinforce_spec.SumTree.Climb.{Sums}

-- The leaves under a node, from left to right.
abbrev pub leaves : ℕ → ℕ → List ℕ → List ℕ
leaves zero i tree = i ∷ []
leaves (suc fuel) i tree =
    let left = leaves fuel (2 * i + 1) tree in
    let right = leaves fuel (2 * i + 2) tree in
    if leb (length tree) (2 * i + 1) then i ∷ [] else left ++ right

abbrev pub weight : List ℕ → List ℕ → ℕ
weight tree [] = 0
weight tree (i ∷ is) = at tree i + weight tree is

-- The first leaf at which the running sum reaches the value, or the last one.
abbrev pub scan : List ℕ → ℕ → List ℕ → ℕ
scan tree value [] = 0
scan tree value (i ∷ []) = i
scan tree value (i ∷ j ∷ rest) =
    let later = scan tree (value - at tree i) (j ∷ rest) in
    if leb value (at tree i) then i else later

abbrev Nonempty : List ℕ → Type 0
Nonempty [] = ⊥
Nonempty (i ∷ is) = Unit {0}

module _ (tree : List ℕ) where
  Nonempty-append : (xs ys : List ℕ) → Nonempty xs → Nonempty (xs ++ ys)
  Nonempty-append [] ys h = elim h [ ]
  Nonempty-append (x ∷ xs) ys h = tt

  leaves-Nonempty : (fuel i : ℕ) → Nonempty (leaves fuel i tree)
  leaves-Nonempty zero i = tt
  leaves-Nonempty (suc fuel) i = elim (Bool-cases (leb (length tree) (2 * i + 1))) [
    | inl e ↦ rw e tt
    | inr e ↦ rw e (
        Nonempty-append (leaves fuel (2 * i + 1) tree) (leaves fuel (2 * i + 2) tree)
          (leaves-Nonempty fuel (2 * i + 1)))
  ]

  weight-append : (xs ys : List ℕ) → weight tree (xs ++ ys) ≡ weight tree xs + weight tree ys
  weight-append [] ys = omega arith
  weight-append (x ∷ xs) ys = omega (arith, weight-append xs ys)

  pub weight-leaves :
      (fuel i : ℕ)
      → (c : ℕ) → length tree + 1 ≡ 2 * c
      → Sums tree
      → weight tree (leaves fuel i tree) ≡ at tree i
  weight-leaves zero i c odd s = omega arith
  weight-leaves (suc fuel) i c odd s = elim (Bool-cases (leb (length tree) (2 * i + 1))) [
    | inl e ↦ rw e (omega arith)
    | inr e ↦ rw e (
        weight-append (leaves fuel (2 * i + 1) tree) (leaves fuel (2 * i + 2) tree)
        ∙ ground (
          arith,
          e,
          odd,
          s i,
          weight-leaves fuel (2 * i + 1) c odd s,
          weight-leaves fuel (2 * i + 2) c odd s,
        ))
  ]

  scan-append :
      (value : ℕ) (xs ys : List ℕ)
      → Nonempty xs
      → Nonempty ys
      → scan tree value (xs ++ ys) ≡ (
          if leb value (weight tree xs)
          then scan tree value xs
          else scan tree (value - weight tree xs) ys)
  scan-append value [] ys h g = elim h [ ]
  scan-append value (x ∷ []) [] h g = elim g [ ]
  scan-append value (x ∷ []) (y ∷ ys) h g = ground arith
  scan-append value (x ∷ x' ∷ xs) ys h g =
      ground (arith, scan-append (value - at tree x) (x' ∷ xs) ys h g)

  pub walk-scan :
      (fuel i value : ℕ)
      → (c : ℕ) → length tree + 1 ≡ 2 * c
      → Sums tree
      → walk fuel value i tree ≡ scan tree value (leaves fuel i tree)
  unfolding walk
  walk-scan zero i value c odd s = refl
  walk-scan (suc fuel) i value c odd s = elim (Bool-cases (leb (length tree) (2 * i + 1))) [
    | inl e ↦ rw e
    | inr e ↦
        let left = leaves fuel (2 * i + 1) tree in
        let right = leaves fuel (2 * i + 2) tree in
        rw (e, walk)
          (sym (
            scan-append value left right (leaves-Nonempty fuel (2 * i + 1))
              (leaves-Nonempty fuel (2 * i + 2))
            ∙ rw (
              weight-leaves fuel (2 * i + 1) c odd s,
              sym (walk-scan fuel (2 * i + 1) value c odd s),
              sym (walk-scan fuel (2 * i + 2) (value - at tree (2 * i + 1)) c odd s),
            )))
  ]

  -- The length of the array is fuel enough to come to a leaf.
  pub walk_ends :
      (fuel i value : ℕ)
      → (c : ℕ) → length tree + 1 ≡ 2 * c
      → i < length tree
      → length tree ≤ i + fuel
      → (c ≤ walk fuel value i tree + 1) × (walk fuel value i tree < length tree)
  unfolding walk
  walk_ends zero i value c odd h f = absurd (omega arith)
  walk_ends (suc fuel) i value c odd h f = ground (
    arith,
    odd,
    h,
    f,
    walk_ends fuel (2 * i + 1) value c odd,
    walk_ends fuel (2 * i + 2) (value - at tree (2 * i + 1)) c odd,
  )

  -- Beyond the length of the array, fuel makes no difference.
  pub walk-enough :
      (fuel more i value : ℕ)
      → length tree ≤ i + fuel
      → length tree ≤ i + more
      → walk fuel value i tree ≡ walk more value i tree
  unfolding walk
  walk-enough zero zero i value f g = refl
  walk-enough zero (suc more) i value f g = ground (arith, f)
  walk-enough (suc fuel) zero i value f g = ground (arith, g)
  walk-enough (suc fuel) (suc more) i value f g = ground (
    arith,
    f,
    g,
    walk-enough fuel more (2 * i + 1) value,
    walk-enough fuel more (2 * i + 2) (value - at tree (2 * i + 1)),
  )

  pub scan-positive :
      (value : ℕ) (xs : List ℕ)
      → 0 < value
      → value ≤ weight tree xs
      → 0 < at tree (scan tree value xs)
  scan-positive value [] h g = absurd (omega arith)
  scan-positive value (x ∷ []) h g = omega arith
  scan-positive value (x ∷ y ∷ rest) h g =
      ground (arith, h, g, scan-positive (value - at tree x) (y ∷ rest))

  pub scan-share :
      (value : ℕ) (before : List ℕ) (x : ℕ) (rest : List ℕ)
      → weight tree before < value
      → value ≤ weight tree before + at tree x
      → scan tree value (before ++ x ∷ rest) ≡ x
  scan-share value [] x [] h g = refl
  scan-share value [] x (y ∷ rest) h g = ground (arith, g)
  scan-share value (b ∷ []) x rest h g =
      ground (arith, h, g, scan-share (value - at tree b) [] x rest)
  scan-share value (b ∷ b' ∷ before) x rest h g =
      ground (arith, h, g, scan-share (value - at tree b) (b' ∷ before) x rest)
