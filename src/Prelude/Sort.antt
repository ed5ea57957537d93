-- ===== src/Prelude/Sort.antt =====
-- Python's `sorted` and `list.sort` with a key and `reverse=True`: descending by the key, and
-- stable. `below x y` says that the key of `x` is strictly below that of `y`.
use mathlib.Core.List.{Perm}
use mathlib.Core.List.Perm
use mathlib.Core.Path.{◌≡◌}
use mathlib.Core.Bool.{Bool, true, false}
use mathlib.Core.Logic.{inl, inr}
use mathlib.Core.List.{List, [], ◌∷◌}
use native.Mathlib.Omega.{arith}
use reinforce_spec.Prelude.Tests.{if◌then◌else◌, Bool-cases}
use reinforce_spec.Prelude.Lists.{All}

module _ {ℓ} {A : Type ℓ} (below : A → A → Bool) where
  unfoldable pub insert_desc : A → List A → List A
  insert_desc x [] = x ∷ []
  insert_desc x (y ∷ ys) = let rest = insert_desc x ys in if below x y then y ∷ rest else x ∷ y ∷ ys

  unfoldable pub sort_desc : List A → List A
  unfolding insert_desc
  sort_desc [] = []
  sort_desc (x ∷ xs) = insert_desc x (sort_desc xs)

  insert_desc-perm : (x : A) (ys : List A) → Perm (insert_desc x ys) (x ∷ ys)
  unfolding insert_desc
  insert_desc-perm x [] = Perm.refl (x ∷ [])
  insert_desc-perm x (y ∷ ys) = go (below x y) (insert_desc-perm x ys)
    where
      go :
          (b : Bool)
          → Perm (insert_desc x ys) (x ∷ ys)
          → Perm (if b then y ∷ insert_desc x ys else x ∷ y ∷ ys) (x ∷ y ∷ ys)
      go true ih = Perm.trans (Perm.cons y ih) (Perm.swap x y ys)
      go false ih = Perm.refl (x ∷ y ∷ ys)

  -- Sorting only reorders.
  pub sort_desc-perm : (xs : List A) → Perm (sort_desc xs) xs
  unfolding sort_desc
  sort_desc-perm [] = Perm.refl []
  sort_desc-perm (x ∷ xs) =
      Perm.trans (insert_desc-perm x (sort_desc xs)) (Perm.cons x (sort_desc-perm xs))

  -- No element stands before one with a greater key.
  abbrev pub Descending : List A → Type 0
  Descending [] = Unit {0}
  Descending (x ∷ xs) = All (λ y. below x y ≡ false) xs × Descending xs

  module _ (antisym : (x y : A) → below x y ≡ true → below y x ≡ false)
      (trans : (x y z : A) → below x y ≡ false → below y z ≡ false → below x z ≡ false) where
    All-trans :
        (x y : A) (zs : List A)
        → below x y ≡ false
        → All (λ z. below y z ≡ false) zs
        → All (λ z. below x z ≡ false) zs
    All-trans x y [] h a = tt
    All-trans x y (z ∷ zs) h (a, more) = (trans x y z h a, All-trans x y zs h more)

    All-insert :
        (w x : A) (ys : List A)
        → below w x ≡ false
        → All (λ y. below w y ≡ false) ys
        → All (λ y. below w y ≡ false) (insert_desc x ys)
    unfolding insert_desc
    All-insert w x [] h a = (h, tt)
    All-insert w x (y ∷ ys) h (a, more) = ground (arith, All-insert w x ys h more)

    insert_desc-Descending : (x : A) (ys : List A) → Descending ys → Descending (insert_desc x ys)
    unfolding insert_desc
    insert_desc-Descending x [] d = (tt, tt)
    insert_desc-Descending x (y ∷ ys) (a, d) = elim (Bool-cases (below x y)) [
      | inl h ↦ rw h (All-insert y x ys (antisym x y h) a, insert_desc-Descending x ys d)
      | inr h ↦ rw h ((h, All-trans x y ys h a), (a, d))
    ]

    -- The result is in descending order of the keys.
    pub sort_desc-Descending : (xs : List A) → Descending (sort_desc xs)
    unfolding sort_desc
    sort_desc-Descending [] = tt
    sort_desc-Descending (x ∷ xs) =
        insert_desc-Descending x (sort_desc xs) (sort_desc-Descending xs)
