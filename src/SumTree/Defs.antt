-- ===== src/SumTree/Defs.antt =====
-- The array of the tree, its walks, and the ring of the data.
use reinforce_spec.Prelude.{
  ℕ, zero, suc, ◌+◌, ◌-◌, ◌*◌, ◌/◌, ◌%◌, min, List, Option, none, some, length, get_or, set,
  replicate, leb, if◌then◌else◌,
}

pub record SumTree {ℓ} (D : Type ℓ) : Type ℓ where
  pub capacity : ℕ
  pub tree : List ℕ
  pub data_of : List (Option D)
  pub write_idx : ℕ
  pub size : ℕ

-- The value of a node.
abbrev pub at : List ℕ → ℕ → ℕ
at tree i = get_or tree i 0

-- The `while` of `_update_tree`: each step goes to the parent, so `tree_idx` is fuel enough.
unfoldable pub climb : ℕ → ℕ → ℕ → ℕ → List ℕ → List ℕ
climb zero tree_idx priority old tree = tree
climb (suc fuel) zero priority old tree = tree
climb (suc fuel) (suc k) priority old tree =
    climb fuel (k / 2) priority old (set tree (k / 2) (at tree (k / 2) + priority - old))

-- `_update_tree`: the change is `priority - old`.
unfoldable pub update_tree : ℕ → ℕ → List ℕ → List ℕ
update_tree tree_idx priority tree =
    climb tree_idx tree_idx priority (at tree tree_idx) (set tree tree_idx priority)

-- The `while` of `sample` from a node on: a step goes to a larger index, so the length of the
-- array is fuel enough.
unfoldable pub walk : ℕ → ℕ → ℕ → List ℕ → ℕ
walk zero value idx tree = idx
walk (suc fuel) value idx tree =
    let to_left = walk fuel value (2 * idx + 1) tree in
    let to_right = walk fuel (value - at tree (2 * idx + 1)) (2 * idx + 2) tree in
    if leb (length tree) (2 * idx + 1)
    then idx
    else (if leb value (at tree (2 * idx + 1)) then to_left else to_right)

module _ {ℓ} {D : Type ℓ} where
  unfoldable pub init : ℕ → SumTree D
  init capacity = record {
    capacity = capacity;
    tree = replicate (2 * capacity - 1) 0;
    data_of = replicate capacity none;
    write_idx = 0;
    size = 0;
  }

  unfoldable pub total : SumTree D → ℕ
  total t = at t.tree 0

  unfoldable pub add : ℕ → D → SumTree D → SumTree D
  add priority item t = record {
    capacity = t.capacity;
    tree = update_tree (t.write_idx + t.capacity - 1) priority t.tree;
    data_of = set t.data_of t.write_idx (some item);
    write_idx = (t.write_idx + 1) % t.capacity;
    size = min (t.size + 1) t.capacity;
  }

  unfoldable pub update : ℕ → ℕ → SumTree D → SumTree D
  update tree_idx priority t = record t { tree = update_tree tree_idx priority t.tree }

  -- `(tree_index, priority, data)`
  unfoldable pub sample : ℕ → SumTree D → ℕ × (ℕ × Option D)
  unfolding walk
  sample value t =
      let idx = walk (length t.tree) value 0 t.tree in
      (idx, (at t.tree idx, get_or t.data_of (idx + 1 - t.capacity) none))
