-- ===== src/ReplayBuffer/Defs.antt =====
-- The importance weights of `sample` are floating-point numbers that do not touch the buffer and
-- are left out. `powered e` is `(abs(e) + epsilon) ** alpha`, and `draw i` is the `uniform` of the
-- i-th round of the loop.
use reinforce_spec.Prelude.{
  ℕ, zero, suc, ◌+◌, max, List, [], ◌∷◌, Option, none, some, nat_beq, if◌then◌else◌,
}
use reinforce_spec.SumTree
use reinforce_spec.SumTree.{SumTree}

pub record Buffer {ℓ} (D : Type ℓ) : Type ℓ where
  pub tree : SumTree D
  pub frame : ℕ
  pub max_priority : ℕ

-- The transitions and their tree indices.
abbrev pub Batch {ℓ} : Type ℓ → Type ℓ
Batch D = List D × List ℕ

abbrev pub priority_of : (ℕ → ℕ) → Option ℕ → ℕ → ℕ
priority_of powered none highest = highest
priority_of powered (some td_error) highest = powered td_error

module _ {ℓ} {D : Type ℓ} where
  -- `unit` is the priority 1.0.
  unfoldable pub init : ℕ → ℕ → Buffer D
  init capacity unit = record { tree = SumTree.init capacity; frame = 0; max_priority = unit }

  unfoldable pub add : (ℕ → ℕ) → D → Option ℕ → Buffer D → Buffer D
  add powered transition td_error b = record b {
    tree = SumTree.add (priority_of powered td_error b.max_priority) transition b.tree;
  }

  abbrev pub collected : ℕ → Option D → Batch D → Batch D
  collected idx none batch = batch
  collected idx (some transition) (transitions, indices) = (transition ∷ transitions, idx ∷ indices)

  -- The loop of `sample`: `rounds` are left, and a leaf without data is passed over.
  unfoldable pub collect : (ℕ → ℕ) → ℕ → ℕ → SumTree D → Batch D
  collect draw zero i t = ([], [])
  collect draw (suc rounds) i t =
      let (idx, (priority, item)) = SumTree.sample (draw i) t in
      collected idx item (collect draw rounds (i + 1) t)

  -- None is the ZeroDivisionError of `total / batch_size`; the frame has advanced by then.
  unfoldable pub sample : (ℕ → ℕ) → ℕ → Buffer D → Option (Batch D) × Buffer D
  unfolding collect
  sample draw batch_size b =
      let b' = record b { frame = b.frame + 1 } in
      let batch = collect draw batch_size 0 b.tree in
      if nat_beq (SumTree.total b.tree) 0
      then (some ([], []), b')
      else (if nat_beq batch_size 0 then (none, b') else (some batch, b'))

  -- `zip` ends with the shorter list.
  unfoldable pub update_priorities : (ℕ → ℕ) → List ℕ → List ℕ → Buffer D → Buffer D
  update_priorities powered [] errors b = b
  update_priorities powered (idx ∷ indices) [] b = b
  update_priorities powered (idx ∷ indices) (td_error ∷ errors) b =
      update_priorities powered indices errors (record b {
        tree = SumTree.update idx (powered td_error) b.tree;
        max_priority = max b.max_priority (powered td_error);
      })

  unfoldable pub clear : ℕ → Buffer D → Buffer D
  clear unit b = record { tree = SumTree.init b.tree.capacity; frame = 0; max_priority = unit }
