-- ===== src/ReplayBuffer/Examples.antt =====
-- A buffer of two slots after two additions and a learning step.
use reinforce_spec.Prelude.{
  ℕ, ◌+◌, ◌*◌, ◌≡◌, refl, String, List, [], ◌∷◌, none, some, arith, length, All,
}
use reinforce_spec.SumTree
use reinforce_spec.ReplayBuffer.Defs.{init, add, sample, update_priorities, collect}
use reinforce_spec.ReplayBuffer.Invariant.{Holds}
use reinforce_spec.ReplayBuffer.Learning.{Op, adds, learns, run, history-full_sample}

abbrev squared : ℕ → ℕ
squared e = e + 1

abbrev ops : List (Op String)
ops = adds "a" none ∷ adds "b" (some 4) ∷ learns (λ i. 6) 1 (8 ∷ []) ∷ []

total_there : SumTree.total (run squared 1 (init 2 1) ops).tree ≡ 10
unfolding run init add sample collect update_priorities SumTree.total SumTree.add SumTree.update
    SumTree.sample SumTree.init SumTree.update_tree SumTree.climb SumTree.walk
total_there = refl

history-full_sample_example :
    let b = run squared 1 (init 2 1) ops in
    (transitions : List String) × (indices : List ℕ) × ((sample (λ i. 5 * i + 3) 2 b).0
      ≡ some (transitions, indices))
    × (length transitions ≡ 2)
    × (length indices ≡ 2)
    × All (Holds b.tree) indices
history-full_sample_example =
    history-full_sample squared 1 2 ops (λ i. 5 * i + 3) 2 (omega arith) (omega arith)
      (omega (arith, total_there)) (λ j h. (omega arith, omega (arith, h, total_there)))

-- A batch of none divides by zero.
nothing_asked : (sample (λ i. 3) 0 (run squared 1 (init 2 1) ops)).0 ≡ none
unfolding run init add sample collect update_priorities SumTree.total SumTree.add SumTree.update
    SumTree.sample SumTree.init SumTree.update_tree SumTree.climb SumTree.walk
nothing_asked = refl
