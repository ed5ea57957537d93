-- ===== src/SumTree/Total.antt =====
-- The root is the sum of the leaves.
use reinforce_spec.Prelude.{
  ℕ, zero, suc, ◌+◌, ◌*◌, ◌<◌, ◌≤◌, ◌≡◌, refl, ap, List, length, arith, ltb, if◌then◌else◌,
}
use reinforce_spec.SumTree.Defs.{at, update_tree}
use reinforce_spec.SumTree.Climb.{Sums, update_tree-Sums, at-update_tree, length-update_tree}

-- The sum of `n` nodes from `first` on.
abbrev pub sum_of : List ℕ → ℕ → ℕ → ℕ
sum_of tree first zero = 0
sum_of tree first (suc n) = sum_of tree first n + at tree (first + n)

pub same_at : (tree : List ℕ) (i j : ℕ) → i ≡ j → at tree i ≡ at tree j
same_at tree i j e = ap (at tree) e

same_sum : (tree : List ℕ) (first i j : ℕ) → i ≡ j → sum_of tree first i ≡ sum_of tree first j
same_sum tree first i j e = ap (sum_of tree first) e

module _ (tree : List ℕ) where
  sum_of-add :
      (first n k : ℕ) → sum_of tree first (n + k) ≡ sum_of tree first n + sum_of tree (first + n) k
  sum_of-add first n zero = omega (arith, same_sum tree first (n + 0) n (omega arith))
  sum_of-add first n (suc k) =
      let e : first + (n + k) ≡ first + n + k = omega arith in
      ground (
        arith,
        sum_of-add first n k,
        ap (at tree) e,
        same_sum tree first (n + suc k) (suc (n + k)) (omega arith),
      )

  sum_of-suc : (n : ℕ) → sum_of tree 0 (suc n) ≡ at tree 0 + sum_of tree 1 n
  sum_of-suc zero = omega arith
  sum_of-suc (suc n) = omega (arith, sum_of-suc n, same_at tree (0 + suc n) (1 + n) (omega arith))

  -- Each of the first `n` inner nodes is paid for by two nodes after the root.
  inner-sum : (n : ℕ) → 2 * n < length tree → Sums tree → sum_of tree 0 n ≡ sum_of tree 1 (2 * n)
  inner-sum zero h s = refl
  inner-sum (suc n) h s = ground (
    arith,
    inner-sum n (omega arith) s,
    s n (omega arith),
    same_sum tree 1 (2 * suc n) (suc (suc (2 * n))) (omega arith),
    same_at tree (1 + 2 * n) (2 * n + 1) (omega arith),
    same_at tree (1 + suc (2 * n)) (2 * n + 2) (omega arith),
  )

  pub root-sum :
      (c : ℕ) → length tree + 1 ≡ 2 * suc c → Sums tree → at tree 0 ≡ sum_of tree c (suc c)
  root-sum zero odd s = omega arith
  root-sum (suc c) odd s =
      let paid = inner-sum (suc c) (omega arith) s in
      let cut = sum_of-add 1 c (suc (suc c)) in
      ground (
        arith,
        paid,
        sum_of-suc c,
        cut,
        same_sum tree 1 (2 * suc c) (c + suc (suc c)) (omega arith),
      )

-- One leaf of a range changes its sum by what it changes itself.
sum_of-update :
    (c k priority first n : ℕ) (tree : List ℕ)
    → length tree + 1 ≡ 2 * c
    → c ≤ k + 1
    → c ≤ first + 1
    → k < length tree
    → first ≤ k
    → sum_of (update_tree k priority tree) first n + (if ltb k (first + n) then at tree k else 0)
      ≡ sum_of tree first n + (if ltb k (first + n) then priority else 0)
sum_of-update c k priority first zero tree odd leaf leaf' h g = ground arith
sum_of-update c k priority first (suc n) tree odd leaf leaf' h g = ground (
  arith,
  sum_of-update c k priority first n tree odd leaf leaf' h g,
  at-update_tree c k priority tree (first + n) odd leaf (omega arith) h,
  same_at tree k (first + n),
)

-- Writing a leaf changes the root by the difference.
pub root-update :
    (c k priority : ℕ) (tree : List ℕ)
    → length tree + 1 ≡ 2 * suc c
    → c ≤ k
    → k < length tree
    → Sums tree
    → at (update_tree k priority tree) 0 + at tree k ≡ at tree 0 + priority
root-update c k priority tree odd leaf h s =
    let odd' : length (update_tree k priority tree) + 1 ≡ 2 * suc c =
      rw (length-update_tree (suc c) k priority tree) odd in
    ground (
      arith,
      root-sum tree c odd s,
      root-sum (update_tree k priority tree) c odd'
          (update_tree-Sums (suc c) k priority tree odd (omega arith) h s),
      sum_of-update (suc c) k priority c (suc c) tree odd (omega arith) (omega arith) h leaf,
    )
