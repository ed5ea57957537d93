-- ===== src/SumTree/Sampling.antt =====
-- What `sample` returns on a valid tree.
use reinforce_spec.Prelude.{
  ℕ, ◌+◌, ◌-◌, ◌<◌, ◌≤◌, ◌≡◌, ap, ◌∙◌, List, ◌∷◌, ◌++◌, none, length, arith, get_or,
}
use reinforce_spec.SumTree.Defs.{SumTree, at, walk, sample, total}
use reinforce_spec.SumTree.Walk.{
  leaves, weight, scan, walk-scan, walk_ends, walk-enough, weight-leaves, scan-positive, scan-share,
}
use reinforce_spec.SumTree.Invariant.{IsValid}

module _ {ℓ} {D : Type ℓ} where
  -- The leaves of a tree from left to right.
  abbrev pub leaves_of : SumTree D → List ℕ
  leaves_of t = leaves (length t.tree) 0 t.tree

  -- On a valid tree the walk from the root returns the leaf at which a scan over the leaves from
  -- left to right reaches the value; for a value in (0, total] its priority is positive.
  pub sample-scan :
      (t : SumTree D) (value : ℕ)
      → IsValid t
      → 0 < value
      → value ≤ total t
      → let (idx, (priority, item)) = sample value t in
        (idx ≡ scan t.tree value (leaves_of t))
        × (t.capacity ≤ idx + 1)
        × (idx < length t.tree)
        × (0 < priority)
  unfolding sample total
  sample-scan t value v h g =
      let e = walk-scan t.tree (length t.tree) 0 value t.capacity v.odd v.sums in
      let odd = v.odd in
      let pos = v.positive in
      let ends =
        walk_ends t.tree (length t.tree) 0 value t.capacity v.odd (omega (arith, odd, pos))
          (omega arith) in
      let w = weight-leaves t.tree (length t.tree) 0 t.capacity v.odd v.sums in
      (e, ends.0, ends.1, rw e (scan-positive t.tree value (leaves_of t) h (omega (arith, w, g))))

  -- On a valid tree, whatever the value: the walk of `sample` ends at a leaf, and with any fuel from the
  -- length of the array on it ends at the same one.
  pub sample-ends :
      (t : SumTree D) (value fuel : ℕ)
      → IsValid t
      → length t.tree ≤ fuel
      → (walk fuel value 0 t.tree ≡ (sample value t).0)
        × (t.capacity ≤ (sample value t).0 + 1)
        × ((sample value t).0 < length t.tree)
  unfolding sample
  sample-ends t value fuel v enough =
      let odd = v.odd in
      let pos = v.positive in
      let ends =
        walk_ends t.tree (length t.tree) 0 value t.capacity v.odd (omega (arith, odd, pos))
          (omega arith) in
      (walk-enough t.tree fuel (length t.tree) 0 value (omega arith) (omega arith), ends.0, ends.1)

  -- On a valid tree each leaf is returned for as many values as its priority counts: those above
  -- the weight of the leaves before it, up to that weight and its own priority.
  pub sample-share :
      (t : SumTree D) (before : List ℕ) (x : ℕ) (rest : List ℕ) (value : ℕ)
      → IsValid t
      → leaves_of t ≡ before ++ x ∷ rest
      → weight t.tree before < value
      → value ≤ weight t.tree before + at t.tree x
      → sample value t ≡ (x, (at t.tree x, get_or t.data_of (x + 1 - t.capacity) none))
  unfolding sample
  sample-share t before x rest value v split h g =
      let e = walk-scan t.tree (length t.tree) 0 value t.capacity v.odd v.sums in
      let found : walk (length t.tree) value 0 t.tree ≡ x =
        e ∙ ap (scan t.tree value) split ∙ scan-share t.tree value before x rest h g in
      ap (λ (i : ℕ). (i, (at t.tree i, get_or t.data_of (i + 1 - t.capacity) none))) found
