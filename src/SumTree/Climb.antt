-- ===== src/SumTree/Climb.antt =====
-- Writing a leaf keeps every inner node the sum of its children.
use reinforce_spec.Prelude.{
  ℕ, zero, suc, ◌+◌, ◌-◌, ◌*◌, ◌/◌, ◌<◌, ◌≤◌, ◌≡◌, ◌≢◌, ◌⊎◌, inl, inr, refl, sym, ap, ◌∙◌, List,
  length, set, length-set, get_or-set_self, get_or-set_ne, arith, nat_beq, if◌then◌else◌,
}
use native.Mathlib.Decide.{ℕ_discrete}
use reinforce_spec.SumTree.Defs.{at, climb, update_tree}

-- Every inner node holds the sum of its children.
abbrev pub Sums : List ℕ → Type 0
Sums tree =
    (i : ℕ) → 2 * i + 2 < length tree → at tree i ≡ at tree (2 * i + 1) + at tree (2 * i + 2)

pub at-set :
    (tree : List ℕ) (i j v : ℕ)
    → i < length tree
    → at (set tree i v) j ≡ (if nat_beq i j then v else at tree j)
at-set tree i j v h = elim (ℕ_discrete i j) [
  | yes e ↦ ground (arith, e, ap (at (set tree i v)) (sym e), get_or-set_self tree i v 0 h)
  | no ne ↦ ground (arith, get_or-set_ne tree i j v 0 ne)
]

-- All sums hold but that of the parent of `k`, which has yet to learn that `old` became
-- `priority`.
record Pending (c k priority old : ℕ) (tree : List ℕ) : Type 0 where
  odd : length tree + 1 ≡ 2 * c
  within : k < length tree
  bound : priority ≤ at tree k
  sums :
      (i : ℕ)
      → 2 * i + 2 < length tree
      → suc (2 * i) ≢ k
      → suc (suc (2 * i)) ≢ k
      → at tree i ≡ at tree (2 * i + 1) + at tree (2 * i + 2)
  behind :
      (i : ℕ)
      → (suc (2 * i) ≡ k) ⊎ (suc (suc (2 * i)) ≡ k)
      → at tree i + priority ≡ at tree (2 * i + 1) + at tree (2 * i + 2) + old

half : (k : ℕ) → (k ≡ 2 * (k / 2)) ⊎ (k ≡ suc (2 * (k / 2)))
half k = ground arith

module _ (c k priority old : ℕ) (tree : List ℕ) (v : Pending c (suc k) priority old tree) where
  abbrev new : ℕ
  new = at tree (k / 2) + priority - old

  -- The node that is written becomes the sum of its children, the changed one included.
  settled :
      (at tree (k / 2) + priority ≡ at tree (2 * (k / 2) + 1) + at tree (2 * (k / 2) + 2) + old)
      × (priority ≤ at tree (2 * (k / 2) + 1) + at tree (2 * (k / 2) + 2))
      × (k / 2 < length tree)
  settled =
      let b = v.bound in
      let w = v.within in
      elim (half k) [
        | inl e ↦
            let f : suc k ≡ 2 * (k / 2) + 1 = omega (arith, e) in
            (
              v.behind (k / 2) (inl (omega (arith, e))),
              omega (arith, b, ap (at tree) f),
              omega (arith, w, e),
            )
        | inr e ↦
            let f : suc k ≡ 2 * (k / 2) + 2 = omega (arith, e) in
            (
              v.behind (k / 2) (inr (omega (arith, e))),
              omega (arith, b, ap (at tree) f),
              omega (arith, w, e),
            )
      ]

  after : (j : ℕ) → at (set tree (k / 2) new) j ≡ (if nat_beq (k / 2) j then new else at tree j)
  after j = at-set tree (k / 2) j new settled.2

  step-Pending : Pending c (k / 2) priority old (set tree (k / 2) new)
  step-Pending = record {
    odd = rw (length-set tree (k / 2) new) v.odd;
    within = rw (length-set tree (k / 2) new) settled.2;
    bound = ground (arith, settled, after (k / 2));
    sums = λ i h l r. elim (ℕ_discrete (k / 2) i) [
      | yes e ↦ ground (arith, e, settled, after i, after (2 * i + 1), after (2 * i + 2))
      | no ne ↦
          let old_sum =
            v.sums i (rw (sym (length-set tree (k / 2) new)) h) (λ e. ne (omega (arith, e)))
              (λ e. ne (omega (arith, e))) in
          ground (arith, ne, l, r, old_sum, after i, after (2 * i + 1), after (2 * i + 2))
    ];
    behind = λ i h.
        let old_sum =
          v.sums i (ground (arith, h, settled)) (ground (arith, h)) (ground (arith, h)) in
        ground (arith, h, old_sum, settled, after i, after (2 * i + 1), after (2 * i + 2));
  }

climb-Sums :
    (fuel c k priority old : ℕ) (tree : List ℕ)
    → k ≤ fuel
    → Pending c k priority old tree
    → Sums (climb fuel k priority old tree)
unfolding climb
climb-Sums zero c zero priority old tree h v = λ i b. v.sums i b (omega arith) (omega arith)
climb-Sums zero c (suc k) priority old tree h v = elim h [ ]
climb-Sums (suc fuel) c zero priority old tree h v = λ i b. v.sums i b (omega arith) (omega arith)
climb-Sums (suc fuel) c (suc k) priority old tree h v =
    climb-Sums fuel c (k / 2) priority old (set tree (k / 2) (at tree (k / 2) + priority - old))
      (omega arith) (step-Pending c k priority old tree v)

length-climb :
    (fuel k priority old : ℕ) (tree : List ℕ)
    → length (climb fuel k priority old tree) ≡ length tree
unfolding climb
length-climb zero k priority old tree = refl
length-climb (suc fuel) zero priority old tree = refl
length-climb (suc fuel) (suc k) priority old tree =
    let new = at tree (k / 2) + priority - old in
    length-climb fuel (k / 2) priority old (set tree (k / 2) new) ∙ length-set tree (k / 2) new

-- The nodes above are written, and no other.
at-climb :
    (fuel k priority old j : ℕ) (tree : List ℕ)
    → k < length tree
    → k < 2 * j + 1
    → at (climb fuel k priority old tree) j ≡ at tree j
unfolding climb
at-climb zero k priority old j tree h b = refl
at-climb (suc fuel) zero priority old j tree h b = refl
at-climb (suc fuel) (suc k) priority old j tree h b =
    let new = at tree (k / 2) + priority - old in
    let e = at-set tree (k / 2) j new (omega arith) in
    at-climb fuel (k / 2) priority old j (set tree (k / 2) new)
      (rw (length-set tree (k / 2) new) (omega arith)) (omega arith)
    ∙ ground (arith, e)

module _ (c k priority : ℕ) (tree : List ℕ) where
  pub length-update_tree : length (update_tree k priority tree) ≡ length tree
  unfolding update_tree
  length-update_tree =
      length-climb k k priority (at tree k) (set tree k priority) ∙ length-set tree k priority

  pub update_tree-Sums :
      length tree + 1 ≡ 2 * c
      → c ≤ k + 1
      → k < length tree
      → Sums tree
      → Sums (update_tree k priority tree)
  unfolding update_tree
  update_tree-Sums odd leaf h s =
      let new = λ (j : ℕ). at-set tree k j priority h in
      climb-Sums k c k priority (at tree k) (set tree k priority) (omega arith) (record {
        odd = rw (length-set tree k priority) odd;
        within = rw (length-set tree k priority) h;
        bound = ground (arith, new k);
        sums = λ i b l r.
            (let b' : 2 * i + 2 < length tree = rw (sym (length-set tree k priority)) b in
              ground (arith, s i b', new i, new (2 * i + 1), new (2 * i + 2)));
        behind = λ i e.
            (let b' : 2 * i + 2 < length tree = ground (arith, odd, h, e) in
              ground (arith, e, s i b', new i, new (2 * i + 1), new (2 * i + 2)));
      })

  -- A leaf other than the written one keeps its value, and the written one has the new one.
  pub at-update_tree :
      (j : ℕ)
      → length tree + 1 ≡ 2 * c
      → c ≤ k + 1
      → c ≤ j + 1
      → k < length tree
      → at (update_tree k priority tree) j ≡ (if nat_beq k j then priority else at tree j)
  unfolding update_tree
  at-update_tree j odd leaf leaf' h =
      at-climb k k priority (at tree k) j (set tree k priority) (rw (length-set tree k priority) h)
        (omega arith)
      ∙ at-set tree k j priority h
