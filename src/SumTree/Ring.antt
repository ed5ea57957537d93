-- ===== src/SumTree/Ring.antt =====
-- Which items the ring holds after adds.
use reinforce_spec.Prelude.{
  ℕ, zero, suc, ◌+◌, ◌-◌, ◌*◌, ◌%◌, ◌/◌, ◌<◌, ◌≤◌, ◌≡◌, ◌≢◌, min, refl, sym, ap, ◌∙◌, List, Option,
  none, some, set, get_or, get_or-set_self, get_or-set_ne, arith, ltb, nat_beq, subst,
  if◌then◌else◌,
}
use native.Mathlib.Omega.{div_any}
use native.Mathlib.Decide.{ℕ_discrete}
use reinforce_spec.SumTree.Defs.{SumTree, at, init, add}
use reinforce_spec.SumTree.Climb.{at-update_tree}
use reinforce_spec.SumTree.Invariant.{IsValid, init-IsValid, add-IsValid, mod_lt}

remainder :
    (x c q r : ℕ) → c * q + r ≡ x + 1 → r < c → x < c → r ≡ (if ltb (x + 1) c then x + 1 else 0)
remainder x c zero r e h g = ground arith
remainder x c (suc q) r e h g = ground arith

-- Stepping on the ring.
wrap : (x c : ℕ) → x < c → (x + 1) % c ≡ (if ltb (x + 1) c then x + 1 else 0)
wrap x c h =
    remainder x c ((x + 1) / c) ((x + 1) % c) (div_any (x + 1) c)
      (mod_lt (x + 1) c (omega (arith, h))) h

-- The slot of the n-th add.
abbrev pub slot : ℕ → ℕ → ℕ
slot c zero = 0
slot c (suc n) = (slot c n + 1) % c

same_slot : (c n k : ℕ) → n ≡ k → slot c n ≡ slot c k
same_slot c n k e = ap (slot c) e

slot-lt : (c n : ℕ) → 0 < c → slot c n < c
slot-lt c zero h = h
slot-lt c (suc n) h = mod_lt (slot c n + 1) c h

slot-add :
    (c n d : ℕ)
    → d < c
    → slot c (d + n) ≡ (if ltb (slot c n + d) c then slot c n + d else slot c n + d - c)
slot-add c n zero h = ground (arith, slot-lt c n)
slot-add c n (suc d) h = ground (
  arith,
  slot-lt c n,
  slot-add c n d,
  wrap (slot c (d + n)) c (slot-lt c (d + n) (omega (arith, h))),
  same_slot c (suc d + n) (suc (d + n)) (omega arith),
)

-- Fewer than `c` adds apart, the slots differ.
slot_ne : (c n j : ℕ) → j < n → n < j + c → slot c j ≢ slot c n
slot_ne c n j h g =
    ground (arith, slot-lt c j, slot-add c j (n - j), same_slot c (n - j + j) n (omega (arith, h)))

-- What an add does to each slot and its leaf.
pub add-slot {ℓ} :
    {D : Type ℓ} (priority : ℕ) (item : D) (t : SumTree D) (k : ℕ)
    → IsValid t
    → k < t.capacity
    → (get_or (add priority item t).data_of k none
        ≡ (if nat_beq t.write_idx k then some item else get_or t.data_of k none))
      × (at (add priority item t).tree (k + t.capacity - 1)
          ≡ (if nat_beq t.write_idx k then priority else at t.tree (k + t.capacity - 1)))
unfolding add
add-slot {D = D} p x t k v h =
    let c = t.capacity in
    let w = v.writes in
    let odd = v.odd in
    let slots = v.slots in
    let leaf =
      at-update_tree c (t.write_idx + c - 1) p t.tree (k + c - 1) v.odd (omega arith)
        (omega (arith, h)) (omega (arith, w, odd)) in
    (
      elim (ℕ_discrete t.write_idx k) [
        | yes e ↦ ground (
          arith,
          e,
          get_or-set_self t.data_of t.write_idx (some x) none (omega (arith, w, slots)),
          ap (get_or_of (set t.data_of t.write_idx (some x))) e,
        )
        | no ne ↦ ground (arith, ne, get_or-set_ne t.data_of t.write_idx k (some x) none ne)
      ],
      ground (arith, leaf, w, h),
    )
  where
    get_or_of : List (Option D) → ℕ → Option D
    get_or_of xs n = get_or xs n none

module _ {ℓ} {D : Type ℓ} (item : ℕ → D) (priority : ℕ → ℕ) (c : ℕ) where
  -- A new tree after `n` adds.
  abbrev pub filled : ℕ → SumTree D
  filled zero = init c
  filled (suc n) = add (priority n) (item n) (filled n)

  filled-IsValid : (n : ℕ) → 0 < c → IsValid (filled n)
  filled-IsValid zero h = init-IsValid c h
  filled-IsValid (suc n) h = add-IsValid (priority n) (item n) (filled n) (filled-IsValid n h)

  filled-shape :
      (n : ℕ)
      → ((filled n).capacity ≡ c) × ((filled n).write_idx ≡ slot c n) × ((filled n).size ≡ min n c)
  unfolding init add
  filled-shape zero = (refl, refl, omega arith)
  filled-shape (suc n) = let (e, w, s) = filled-shape n in (e, rw (e, w), rw (e, s) (omega arith))

  -- After `n` adds to a new tree with a positive capacity, each of the last `capacity` items is in
  -- its slot with its priority in the leaf of that slot.
  pub latest_kept :
      (n j : ℕ)
      → 0 < c
      → j < n
      → n ≤ j + c
      → (get_or (filled n).data_of (slot c j) none ≡ some (item j))
        × (at (filled n).tree (slot c j + c - 1) ≡ priority j)
  latest_kept zero j p h g = absurd (omega (arith, h))
  latest_kept (suc n) j p h g =
      let (e, w, s) = filled-shape n in
      let v = filled-IsValid n p in
      let before = latest_kept n j p in
      let (kept, leaf) =
        add-slot (priority n) (item n) (filled n) (slot c j) v (rw e (slot-lt c j p)) in
      let leaf' =
        subst
          (λ k. at (filled (suc n)).tree (slot c j + k - 1) ≡ (
            if nat_beq (filled n).write_idx (slot c j)
            then priority n
            else at (filled n).tree (slot c j + k - 1)))
          e leaf in
      elim (ℕ_discrete j n) [
        | yes same ↦
            let here : (filled n).write_idx ≡ slot c j = w ∙ ap (slot c) (sym same) in
            (
              ground (arith, kept, here, ap item same),
              ground (arith, leaf', here, ap priority same),
            )
        | no ne ↦
            let other = slot_ne c n j (omega (arith, h, ne)) (omega (arith, g)) in
            let (k, l) = before (omega (arith, h, ne)) (omega (arith, g)) in
            (ground (arith, kept, w, other, k), ground (arith, leaf', w, other, l))
      ]
