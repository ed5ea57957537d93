-- ===== src/Prelude/Counting.antt =====
-- How many elements pass a test, and which, before and after sorting.
use Prim.Native.Nat.{ℕ, zero, suc, ◌+◌, ◌≤◌}
use mathlib.Core.Path.{◌≡◌, refl}
use mathlib.Core.Bool.{Bool}
use mathlib.Core.Logic.{inl, inr}
use mathlib.Core.List.{List, [], ◌∷◌, ◌++◌}
use native.Mathlib.Omega.{arith}
use reinforce_spec.Prelude.Tests.{if◌then◌else◌, Bool-cases}
use reinforce_spec.Prelude.Lists.{length, take, drop, All}
use reinforce_spec.Prelude.Sort.{insert_desc, sort_desc}

module _ {ℓ} {A : Type ℓ} where
  abbrev pub count : (A → Bool) → List A → ℕ
  count p [] = 0
  count p (x ∷ xs) = let rest = count p xs in if p x then suc rest else rest

  abbrev pub filter : (A → Bool) → List A → List A
  filter p [] = []
  filter p (x ∷ xs) = let rest = filter p xs in if p x then x ∷ rest else rest

  pub count-le : (p : A → Bool) (xs : List A) → count p xs ≤ length xs
  count-le p [] = omega arith
  count-le p (x ∷ xs) = ground (arith, count-le p xs)

  pub count-append : (p : A → Bool) (xs ys : List A) → count p (xs ++ ys) ≡ count p xs + count p ys
  count-append p [] ys = omega arith
  count-append p (x ∷ xs) ys = ground (arith, count-append p xs ys)

  module _ (below : A → A → Bool) where
    count-insert_desc :
        (p : A → Bool) (x : A) (ys : List A) → count p (insert_desc below x ys) ≡ count p (x ∷ ys)
    unfolding insert_desc
    count-insert_desc p x [] = refl
    count-insert_desc p x (y ∷ ys) = ground (arith, count-insert_desc p x ys)

    pub count-sort_desc : (p : A → Bool) (xs : List A) → count p (sort_desc below xs) ≡ count p xs
    unfolding sort_desc
    count-sort_desc p [] = refl
    count-sort_desc p (x ∷ xs) =
        ground (arith, count-insert_desc p x (sort_desc below xs), count-sort_desc p xs)

    length-insert_desc : (x : A) (ys : List A) → length (insert_desc below x ys) ≡ suc (length ys)
    unfolding insert_desc
    length-insert_desc x [] = refl
    length-insert_desc x (y ∷ ys) = ground (arith, length-insert_desc x ys)

    pub length-sort_desc : (xs : List A) → length (sort_desc below xs) ≡ length xs
    unfolding sort_desc
    length-sort_desc [] = refl
    length-sort_desc (x ∷ xs) =
        omega (arith, length-insert_desc x (sort_desc below xs), length-sort_desc xs)

  pub All-take {κ} : (P : A → Type κ) (n : ℕ) (xs : List A) → All P xs → All P (take n xs)
  All-take P zero xs a = tt
  All-take P (suc n) [] a = tt
  All-take P (suc n) (x ∷ xs) (a, more) = (a, All-take P n xs more)

  pub All-drop {κ} : (P : A → Type κ) (n : ℕ) (xs : List A) → All P xs → All P (drop n xs)
  All-drop P zero xs a = a
  All-drop P (suc n) [] a = tt
  All-drop P (suc n) (x ∷ xs) (a, more) = All-drop P n xs more

  pub All-append {κ} : (P : A → Type κ) (xs ys : List A) → All P xs → All P ys → All P (xs ++ ys)
  All-append P [] ys a b = b
  All-append P (x ∷ xs) ys (a, more) b = (a, All-append P xs ys more b)

  All-insert_desc {κ} :
      (P : A → Type κ) (below : A → A → Bool) (x : A) (ys : List A)
      → P x
      → All P ys
      → All P (insert_desc below x ys)
  unfolding insert_desc
  All-insert_desc P below x [] h a = (h, tt)
  All-insert_desc P below x (y ∷ ys) h (a, more) = elim (Bool-cases (below x y)) [
    | inl e ↦ rw e (a, All-insert_desc P below x ys h more)
    | inr e ↦ rw e (h, (a, more))
  ]

  pub All-sort_desc {κ} :
      (P : A → Type κ) (below : A → A → Bool) (xs : List A) → All P xs → All P (sort_desc below xs)
  unfolding sort_desc
  All-sort_desc P below [] a = tt
  All-sort_desc P below (x ∷ xs) (a, more) =
      All-insert_desc P below x (sort_desc below xs) a (All-sort_desc P below xs more)

  pub All-weaken {κ} :
      (P Q : A → Type κ) (xs : List A) → ((x : A) → P x → Q x) → All P xs → All Q xs
  All-weaken P Q [] f a = tt
  All-weaken P Q (x ∷ xs) f (a, more) = (f x a, All-weaken P Q xs f more)

  pub All-both {κ μ ν} :
      (P : A → Type κ) (Q : A → Type μ) (R : A → Type ν) (xs : List A)
      → ((x : A) → P x → Q x → R x)
      → All P xs
      → All Q xs
      → All R xs
  All-both P Q R [] f a b = tt
  All-both P Q R (x ∷ xs) f (a, more) (b, rest) = (f x a b, All-both P Q R xs f more rest)
