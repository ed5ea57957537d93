-- ===== src/SumTree/Examples.antt =====
-- A tree of three leaves, filled past its capacity.
use reinforce_spec.Prelude.{
  ◌+◌, ◌-◌, ◌<◌, ◌≤◌, ◌≡◌, refl, String, [], ◌∷◌, none, some, arith, length, get_or,
}
use reinforce_spec.SumTree.Defs.{SumTree, at, init, add, total, walk, sample, climb, update_tree}
use reinforce_spec.SumTree.Climb.{Sums}
use reinforce_spec.SumTree.Total.{sum_of}
use reinforce_spec.SumTree.Walk.{scan}
use reinforce_spec.SumTree.Invariant.{
  adds, updates, run, IsValid, init-IsValid, add-IsValid, history-total,
}
use reinforce_spec.SumTree.Sampling.{leaves_of, sample-scan, sample-ends, sample-share}
use reinforce_spec.SumTree.Ring.{slot, filled, latest_kept}

abbrev three : SumTree String
three = add 7 "c" (add 2 "b" (add 5 "a" (init 3)))

three-IsValid : IsValid three
three-IsValid = add-IsValid 7 "c" (add 2 "b" (add 5 "a" (init 3))) (
    add-IsValid 2 "b" (add 5 "a" (init 3))
      (add-IsValid 5 "a" (init 3) (init-IsValid 3 (omega arith))))

three_tree : three.tree ≡ 14 ∷ 9 ∷ 5 ∷ 2 ∷ 7 ∷ []
unfolding add init update_tree climb
three_tree = refl

small : 8 ≤ total three
unfolding total add init update_tree climb
small = omega arith

split : leaves_of three ≡ 3 ∷ 4 ∷ 2 ∷ []
unfolding add init update_tree climb
split = refl

above : at three.tree 3 + 0 < 8
unfolding add init update_tree climb
above = omega arith

within : 8 ≤ at three.tree 3 + 0 + at three.tree 4
unfolding add init update_tree climb
within = omega arith

history-total_example :
    let t = run {D = String} (init 3) (adds 5 "a" ∷ adds 2 "b" ∷ updates 3 9 ∷ []) in
    Sums t.tree × (total t ≡ sum_of t.tree 2 3)
history-total_example =
    history-total {D = String} 3 (adds 5 "a" ∷ adds 2 "b" ∷ updates 3 9 ∷ []) (omega arith)
      (tt, (tt, ((omega arith, omega arith), tt)))

sample-scan_example :
    let (idx, (priority, item)) = sample 8 three in
    (idx ≡ scan three.tree 8 (leaves_of three))
    × (three.capacity ≤ idx + 1)
    × (idx < length three.tree)
    × (0 < priority)
sample-scan_example = sample-scan three 8 three-IsValid (omega arith) small

five_nodes : length three.tree ≤ 9
unfolding add init update_tree climb
five_nodes = omega arith

sample-ends_example :
    (walk 9 20 0 three.tree ≡ (sample 20 three).0)
    × (three.capacity ≤ (sample 20 three).0 + 1)
    × ((sample 20 three).0 < length three.tree)
sample-ends_example = sample-ends three 20 9 three-IsValid five_nodes

sample-share_example :
    sample 8 three ≡ (4, (at three.tree 4, get_or three.data_of (4 + 1 - three.capacity) none))
sample-share_example = sample-share three (3 ∷ []) 4 (2 ∷ []) 8 three-IsValid split above within

latest_kept_example :
    (get_or (filled (λ n. n) (λ n. n + 1) 3 5).data_of (slot 3 4) none ≡ some 4)
    × (at (filled (λ n. n) (λ n. n + 1) 3 5).tree (slot 3 4 + 3 - 1) ≡ 5)
latest_kept_example =
    latest_kept (λ n. n) (λ n. n + 1) 3 5 4 (omega arith) (omega arith) (omega arith)
