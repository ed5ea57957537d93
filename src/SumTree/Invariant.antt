-- ===== src/SumTree/Invariant.antt =====
-- What the operations keep, and what the root then is.
use reinforce_spec.Prelude.{
  ℕ, zero, suc, ◌+◌, ◌-◌, ◌*◌, ◌%◌, ◌<◌, ◌≤◌, ◌≡◌, refl, ap, ◌∙◌, List, [], ◌∷◌, none, some, length,
  replicate, length-set, length-replicate, arith, All,
}
use native.Mathlib.Omega.{mod_fact}
use reinforce_spec.SumTree.Defs.{SumTree, at, init, total, add, update}
use reinforce_spec.SumTree.Climb.{Sums, update_tree-Sums, length-update_tree}
use reinforce_spec.SumTree.Total.{sum_of, root-sum}

pub record IsValid {ℓ} {D : Type ℓ} (t : SumTree D) : Type 0 where
  pub positive : 0 < t.capacity
  pub odd : length t.tree + 1 ≡ 2 * t.capacity
  pub sums : Sums t.tree
  pub slots : length t.data_of ≡ t.capacity
  pub writes : t.write_idx < t.capacity
  pub fits : t.size ≤ t.capacity

pub at-replicate : (n i : ℕ) → at (replicate n 0) i ≡ 0
at-replicate zero i = refl
at-replicate (suc n) zero = refl
at-replicate (suc n) (suc i) = at-replicate n i

pub mod_lt : (a c : ℕ) → 0 < c → a % c < c
mod_lt a zero h = elim h [ ]
mod_lt a (suc c) h = mod_fact a c

module _ {ℓ} {D : Type ℓ} where
  pub init-IsValid : (capacity : ℕ) → 0 < capacity → IsValid (init {D = D} capacity)
  unfolding init
  init-IsValid c h = record {
    positive = h;
    odd = rw (length-replicate {A = ℕ} (2 * c - 1) 0) (omega arith);
    sums = λ i b.
        (let z = at-replicate (2 * c - 1) in ground (arith, z i, z (2 * i + 1), z (2 * i + 2)));
    slots = length-replicate c none;
    writes = h;
    fits = omega arith;
  }

  pub update-IsValid :
      (tree_idx priority : ℕ) (t : SumTree D)
      → t.capacity ≤ tree_idx + 1
      → tree_idx < length t.tree
      → IsValid t
      → IsValid (update tree_idx priority t)
  unfolding update
  update-IsValid i p t leaf h v = record {
    positive = v.positive;
    odd = rw (length-update_tree t.capacity i p t.tree) v.odd;
    sums = update_tree-Sums t.capacity i p t.tree v.odd leaf h v.sums;
    slots = v.slots;
    writes = v.writes;
    fits = v.fits;
  }

  pub add-IsValid :
      (priority : ℕ) (item : D) (t : SumTree D) → IsValid t → IsValid (add priority item t)
  unfolding add
  add-IsValid p x t v =
      let i = t.write_idx + t.capacity - 1 in
      let w = v.writes in
      let odd = v.odd in
      record {
        positive = v.positive;
        odd = rw (length-update_tree t.capacity i p t.tree) v.odd;
        sums =
            update_tree-Sums t.capacity i p t.tree v.odd (omega (arith, w)) (omega (arith, w, odd))
              v.sums;
        slots = length-set t.data_of t.write_idx (some x) ∙ v.slots;
        writes = mod_lt (t.write_idx + 1) t.capacity v.positive;
        fits = omega arith;
      }

  pub total-leaves :
      (t : SumTree D) → IsValid t → total t ≡ sum_of t.tree (t.capacity - 1) t.capacity
  unfolding total
  total-leaves t v =
      let c = t.capacity - 1 in
      let pos = v.positive in
      let e : suc c ≡ t.capacity = omega (arith, pos) in
      root-sum t.tree c (rw e v.odd) v.sums ∙ ap (sum_of t.tree c) e

-- One call of a method that writes.
pub data Op {ℓ} (D : Type ℓ) : Type ℓ where
  adds : ℕ → D → Op D
  updates : ℕ → ℕ → Op D

module _ {ℓ} {D : Type ℓ} where
  unfoldable pub run : SumTree D → List (Op D) → SumTree D
  run t [] = t
  run t (adds priority item ∷ ops) = run (add priority item t) ops
  run t (updates tree_idx priority ∷ ops) = run (update tree_idx priority t) ops

  -- The indices that `sample` returns are of leaves.
  abbrev pub OnLeaf : ℕ → Op D → Type 0
  OnLeaf capacity (adds priority item) = Unit {0}
  OnLeaf capacity (updates tree_idx priority) =
      (capacity ≤ tree_idx + 1) × (tree_idx + 1 < 2 * capacity)

  run-IsValid :
      (t : SumTree D) (ops : List (Op D))
      → All (OnLeaf t.capacity) ops
      → IsValid t
      → IsValid (run t ops) × ((run t ops).capacity ≡ t.capacity)
  unfolding run add update
  run-IsValid t [] h v = (v, refl)
  run-IsValid t (adds p x ∷ ops) h v = run-IsValid (add p x t) ops h.1 (add-IsValid p x t v)
  run-IsValid t (updates i p ∷ ops) h v =
      let odd = v.odd in
      let (leaf, within) = h.0 in
      run-IsValid (update i p t) ops h.1 (update-IsValid i p t leaf (omega (arith, odd, within)) v)

  -- After any adds, and updates of leaves, on a new tree with a positive capacity: every inner
  -- node is the sum of its children, and the total is the sum of the priorities in the leaves.
  pub history-total :
      (capacity : ℕ) (ops : List (Op D))
      → 0 < capacity
      → All (OnLeaf capacity) ops
      → let t = run (init capacity) ops in
        Sums t.tree × (total t ≡ sum_of t.tree (capacity - 1) capacity)
  history-total c ops h leaf =
      let (v, e) = run-IsValid (init c) ops (unfold init in leaf) (init-IsValid c h) in
      let e' : (run (init {D = D} c) ops).capacity ≡ c = unfold init in e in
      (v.sums, total-leaves (run (init c) ops) v ∙ rw e')
