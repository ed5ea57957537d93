-- ===== src/ReplayBuffer/Learning.antt =====
-- Histories of a buffer: additions, learning steps, and clears.
use reinforce_spec.Prelude.{
  ℕ, zero, suc, ◌+◌, ◌-◌, ◌<◌, ◌≤◌, ◌≡◌, ◌≢◌, refl, sym, ap, ◌∙◌, List, [], ◌∷◌, Option, none, some,
  length, get_or, arith, nat_beq, false, All, max, subst, Option-cases, Bool-cases, inl, inr,
}
use reinforce_spec.SumTree
use reinforce_spec.SumTree.{SumTree, at, walk}
use reinforce_spec.SumTree.Climb.{length-update_tree}
use reinforce_spec.SumTree.Total.{same_at}
use reinforce_spec.SumTree.Walk.{walk_ends}
use reinforce_spec.SumTree.Invariant.{IsValid}
use reinforce_spec.SumTree.Sampling.{sample-scan}
use reinforce_spec.ReplayBuffer.Defs.{
  Buffer, Batch, init, add, priority_of, collected, collect, sample, update_priorities, clear,
}
use reinforce_spec.ReplayBuffer.Invariant.{
  Holds, IsSound, init-IsSound, add-IsSound, update-IsSound,
}

module _ {ℓ} {D : Type ℓ} where
  -- Where a walk ends, whatever the value.
  sample-leaf :
      (value : ℕ) (t : SumTree D)
      → IsValid t
      → let (idx, (priority, item)) = SumTree.sample value t in
        (t.capacity ≤ idx + 1)
        × (idx < length t.tree)
        × (item ≡ get_or t.data_of (idx + 1 - t.capacity) none)
  unfolding SumTree.sample
  sample-leaf value t v =
      let odd = v.odd in
      let pos = v.positive in
      let (leaf, within) =
        walk_ends t.tree (length t.tree) 0 value t.capacity odd (omega (arith, odd, pos))
          (omega arith) in
      (leaf, within, refl)

  collected-Holds :
      (t : SumTree D) (idx : ℕ) (item : Option D) (batch : Batch D)
      → (item ≢ none → Holds t idx)
      → All (Holds t) batch.1
      → All (Holds t) (collected idx item batch).1
  collected-Holds t idx none batch h all = all
  collected-Holds t idx (some x) batch h all = (h (λ e. cc), all)

  collect-Holds :
      (draw : ℕ → ℕ) (rounds i : ℕ) (t : SumTree D)
      → IsValid t
      → All (Holds t) (collect draw rounds i t).1
  unfolding collect
  collect-Holds draw zero i t v = tt
  collect-Holds draw (suc rounds) i t v =
      let (idx, (priority, item)) = SumTree.sample (draw i) t in
      let (leaf, within, there) = sample-leaf (draw i) t v in
      collected-Holds t idx item (collect draw rounds (i + 1) t)
        (λ some_item. (leaf, within, λ e. some_item (there ∙ e)))
        (collect-Holds draw rounds (i + 1) t v)

  Holds-update :
      (t : SumTree D) (idx priority : ℕ) (indices : List ℕ)
      → All (Holds t) indices
      → All (Holds (SumTree.update idx priority t)) indices
  unfolding SumTree.update
  Holds-update t idx p [] all = tt
  Holds-update t idx p (i ∷ is) ((leaf, within, held), all) = (
    (leaf, rw (length-update_tree t.capacity idx p t.tree) within, held),
    Holds-update t idx p is all,
  )

  update_priorities-IsSound :
      (powered : ℕ → ℕ) (indices errors : List ℕ) (b : Buffer D)
      → All (Holds b.tree) indices
      → IsSound b.tree
      → IsSound (update_priorities powered indices errors b).tree
  unfolding update_priorities
  update_priorities-IsSound powered [] errors b all s = s
  update_priorities-IsSound powered (i ∷ is) [] b all s = s
  update_priorities-IsSound powered (i ∷ is) (e ∷ errors) b (held, all) s =
      update_priorities-IsSound powered is errors
        (record {
          tree = SumTree.update i (powered e) b.tree;
          frame = b.frame;
          max_priority = max b.max_priority (powered e);
        })
        (Holds-update b.tree i (powered e) is all) (update-IsSound i (powered e) b.tree held s)

-- A learning step samples a batch and writes back the errors at the batch's indices.
pub data Op {ℓ} (D : Type ℓ) : Type ℓ where
  adds : D → Option ℕ → Op D
  learns : (ℕ → ℕ) → ℕ → List ℕ → Op D
  clears : Op D

module _ {ℓ} {D : Type ℓ} (powered : ℕ → ℕ) (unit : ℕ) where
  -- A sample that raises ends the learning step.
  abbrev pub learnt : List ℕ → Option (Batch D) × Buffer D → Buffer D
  learnt errors (none, b) = b
  learnt errors (some batch, b) = update_priorities powered batch.1 errors b

  unfoldable pub step : Buffer D → Op D → Buffer D
  step b (adds transition td_error) = add powered transition td_error b
  step b (learns draw batch_size errors) = learnt errors (sample draw batch_size b)
  step b clears = clear unit b

  unfoldable pub run : Buffer D → List (Op D) → Buffer D
  unfolding step
  run b [] = b
  run b (op ∷ ops) = run (step b op) ops

  abbrev HoldIfAny : SumTree D → Option (Batch D) → Type ℓ
  HoldIfAny t none = Unit
  HoldIfAny t (some batch) = All (Holds t) batch.1

  sample-Holds :
      (draw : ℕ → ℕ) (batch_size : ℕ) (b : Buffer D)
      → IsValid b.tree
      → HoldIfAny b.tree (sample draw batch_size b).0 × ((sample draw batch_size b).1.tree ≡ b.tree)
  unfolding sample
  sample-Holds draw n b v = elim (Bool-cases (nat_beq (SumTree.total b.tree) 0)) [
    | inl none_there ↦ rw (none_there, sample) (tt, refl)
    | inr some_there ↦ elim (Bool-cases (nat_beq n 0)) [
      | inl none_asked ↦ rw (some_there, none_asked, sample) (tt, refl)
      | inr some_asked ↦ rw (some_there, some_asked, sample) (collect-Holds draw n 0 b.tree v, refl)
    ]
  ]

  learnt-IsSound :
      (errors : List ℕ) (result : Option (Batch D) × Buffer D) (t : SumTree D)
      → result.1.tree ≡ t
      → HoldIfAny t result.0
      → IsSound t
      → IsSound (learnt errors result).tree
  learnt-IsSound errors (none, b) t same held s = subst IsSound (sym same) s
  learnt-IsSound errors (some batch, b) t same held s =
      update_priorities-IsSound powered batch.1 errors b
        (subst (λ u. All (Holds u) batch.1) (sym same) held) (subst IsSound (sym same) s)

  step-IsSound : (b : Buffer D) (op : Op D) → IsSound b.tree → IsSound (step b op).tree
  unfolding step add clear
  step-IsSound b (adds x e) s = add-IsSound (priority_of powered e b.max_priority) x b.tree s
  step-IsSound b (learns draw n errors) s =
      let (held, same) = sample-Holds draw n b s.valid in
      learnt-IsSound errors (sample draw n b) b.tree same held s
  step-IsSound b clears s = init-IsSound b.tree.capacity s.valid.positive

  pub run-IsSound : (b : Buffer D) (ops : List (Op D)) → IsSound b.tree → IsSound (run b ops).tree
  unfolding run
  run-IsSound b [] s = s
  run-IsSound b (op ∷ ops) s = run-IsSound (step b op) ops (step-IsSound b op s)

  -- The item at a leaf with a positive priority.
  found :
      (value : ℕ) (t : SumTree D)
      → IsSound t
      → 0 < value
      → value ≤ SumTree.total t
      → (SumTree.sample value t).1.1 ≢ none
  unfolding SumTree.sample
  found value t s h g e =
      let (same, leaf, within, positive) = sample-scan t value s.valid h g in
      let odd = s.valid.odd in
      let idx = walk (length t.tree) value 0 t.tree in
      let zero_there = s.vacant (idx + 1 - t.capacity) (omega (arith, leaf, within, odd)) e in
      let here : at t.tree (idx + 1 - t.capacity + t.capacity - 1) ≡ at t.tree idx =
        same_at t.tree (idx + 1 - t.capacity + t.capacity - 1) idx (omega (arith, leaf)) in
      omega (arith, here, zero_there, positive)

  collect_full :
      (draw : ℕ → ℕ) (rounds i : ℕ) (t : SumTree D)
      → IsSound t
      → ((j : ℕ) → i ≤ j → j < i + rounds → (0 < draw j) × (draw j ≤ SumTree.total t))
      → (length (collect draw rounds i t).0 ≡ rounds)
        × (length (collect draw rounds i t).1 ≡ rounds)
  unfolding collect
  collect_full draw zero i t s h = (refl, refl)
  collect_full draw (suc rounds) i t s h =
      let (low, high) = h i (omega arith) (omega arith) in
      let (a, b) =
        collect_full draw rounds (i + 1) t s (λ j l u. h j (omega arith) (omega arith)) in
      elim (Option-cases (SumTree.sample (draw i) t).1.1) [
        | inl missing ↦ absurd (found (draw i) t s low high missing)
        | inr (x, e) ↦ rw e (ap suc a, ap suc b)
      ]

  -- After any additions, learning steps and clears on a new buffer with a positive capacity: a
  -- sample of at least one whose draws are all in (0, total] returns as many transitions and as many
  -- indices as asked, and every index is of a leaf whose slot holds a transition.
  pub history-full_sample :
      (capacity : ℕ) (ops : List (Op D)) (draw : ℕ → ℕ) (batch_size : ℕ)
      → 0 < capacity
      → 0 < batch_size
      → 0 < SumTree.total (run (init capacity unit) ops).tree
      → ((j : ℕ)
          → j < batch_size
          → (0 < draw j) × (draw j ≤ SumTree.total (run (init capacity unit) ops).tree))
      → let b = run (init capacity unit) ops in
        (transitions : List D) × (indices : List ℕ) × ((sample draw batch_size b).0
          ≡ some (transitions, indices))
        × (length transitions ≡ batch_size)
        × (length indices ≡ batch_size)
        × All (Holds b.tree) indices
  history-full_sample c ops draw n h some_asked some_there draws =
      let b : Buffer D = run (init c unit) ops in
      let s : IsSound b.tree = run-IsSound (init c unit) ops (unfold init in init-IsSound c h) in
      let (l, m) = collect_full draw n 0 b.tree s (λ j g u. draws j (omega (arith, u))) in
      let e : nat_beq (SumTree.total b.tree) 0 ≡ false = ground (arith, some_there) in
      let asked : nat_beq n 0 ≡ false = ground (arith, some_asked) in
      let batch = collect draw n 0 b.tree in
      (
        batch.0,
        batch.1,
        (unfold sample in rw (e, asked) refl),
        l,
        m,
        collect-Holds draw n 0 b.tree s.valid,
      )
