-- ===== src/ReplayBuffer/Invariant.antt =====
-- Every leaf without data has priority zero, so that a draw in (0, total] finds a transition.
use reinforce_spec.Prelude.{
  ℕ, ◌+◌, ◌-◌, ◌*◌, ◌<◌, ◌≤◌, ◌≡◌, ◌≢◌, ap, ◌∙◌, none, length, get_or, arith,
}
use reinforce_spec.SumTree
use reinforce_spec.SumTree.{SumTree, at}
use reinforce_spec.SumTree.Climb.{at-update_tree}
use reinforce_spec.SumTree.Invariant.{
  IsValid, at-replicate, init-IsValid, add-IsValid, update-IsValid,
}
use reinforce_spec.SumTree.Ring.{add-slot}

module _ {ℓ} {D : Type ℓ} where
  -- An index of a leaf whose slot holds a transition.
  abbrev pub Holds : SumTree D → ℕ → Type ℓ
  Holds t idx =
      (t.capacity ≤ idx + 1)
      × (idx < length t.tree)
      × (get_or t.data_of (idx + 1 - t.capacity) none ≢ none)

  pub record IsSound (t : SumTree D) : Type ℓ where
    pub valid : IsValid t
    pub vacant :
        (k : ℕ)
        → k < t.capacity
        → get_or t.data_of k none ≡ none
        → at t.tree (k + t.capacity - 1) ≡ 0

  same_slot : (t : SumTree D) (i j : ℕ) → i ≡ j → get_or t.data_of i none ≡ get_or t.data_of j none
  same_slot t i j e = ap (λ k. get_or t.data_of k none) e

  pub add-IsSound :
      (priority : ℕ) (item : D) (t : SumTree D) → IsSound t → IsSound (SumTree.add priority item t)
  unfolding SumTree.add
  add-IsSound p x t s = record {
    valid = add-IsValid p x t s.valid;
    vacant = λ k h e. ground (arith, add-slot p x t k s.valid h, s.vacant k h, e);
  }

  pub init-IsSound : (capacity : ℕ) → 0 < capacity → IsSound (SumTree.init capacity)
  unfolding SumTree.init
  init-IsSound c h = record {
    valid = init-IsValid c h;
    vacant = λ k b e. at-replicate (2 * c - 1) (k + c - 1);
  }

  pub update-IsSound :
      (idx priority : ℕ) (t : SumTree D)
      → Holds t idx
      → IsSound t
      → IsSound (SumTree.update idx priority t)
  unfolding SumTree.update
  update-IsSound i p t h s = record {
    valid = update-IsValid i p t h.0 h.1 s.valid;
    vacant = λ k b e.
        let odd = s.valid.odd in
        let (leaf, within, held) = h in
        let other : i ≢ k + t.capacity - 1 =
          λ same. held (same_slot t (i + 1 - t.capacity) k (omega (arith, same, b)) ∙ e) in
        let zero_there = s.vacant k b e in
        ground (
          arith,
          at-update_tree t.capacity i p t.tree (k + t.capacity - 1) odd leaf (omega arith) within,
          other,
          zero_there,
        );
  }
