-- ===== src/Policy/Ids.antt =====
-- Policy identifiers, `f"v{version:03d}"` of `create_policy`, as code points.
use mathlib.Core.List.{reverse, reverse-reverse, reverse-cons, map-append}
use reinforce_spec.Prelude.{
  ℕ, zero, suc, ◌+◌, ◌-◌, ◌*◌, ◌/◌, ◌%◌, ◌<◌, ◌≡◌, ◌↔◌, refl, ap, sym, ◌∙◌, Bool, true, false, ◌&&◌,
  List, [], ◌∷◌, ◌++◌, map, length, replicate, arith, ltb, nat_beq, if◌then◌else◌, Equality,
}

abbrev pub PolicyId : Type 0
PolicyId = List ℕ

abbrev id_beq : PolicyId → PolicyId → Bool
id_beq [] [] = true
id_beq [] (y ∷ ys) = false
id_beq (x ∷ xs) [] = false
id_beq (x ∷ xs) (y ∷ ys) = nat_beq x y && id_beq xs ys

pub id_beq_iff : (a b : PolicyId) → (id_beq a b ≡ true) ↔ (a ≡ b)
id_beq_iff [] [] = ground arith
id_beq_iff [] (y ∷ ys) = ground arith
id_beq_iff (x ∷ xs) [] = ground arith
id_beq_iff (x ∷ xs) (y ∷ ys) = ground (arith, id_beq_iff xs ys)

instance abbrev pub id_eq : Equality PolicyId
id_eq = record { same = id_beq; same_iff = id_beq_iff }

-- The decimal digits, the lowest first; `suc n` rounds are enough for `n`.
digits : ℕ → ℕ → List ℕ
digits zero n = []
digits (suc fuel) n =
    let rest = digits fuel (n / 10) in if ltb n 10 then n ∷ [] else (n % 10) ∷ rest

-- `:03d` fills up with zeros to three digits.
unfoldable pub policy_id : ℕ → PolicyId
unfolding digits
policy_id version =
    let ds = digits (suc version) version in
    b'v' ∷ map (λ d. d + 48) (reverse (ds ++ replicate (3 - length ds) 0))

value : List ℕ → ℕ
value [] = 0
value (d ∷ ds) = d + 10 * value ds

value-digits : (fuel n : ℕ) → n < fuel → value (digits fuel n) ≡ n
unfolding value digits
value-digits zero n h = absurd (omega arith)
value-digits (suc fuel) n h = ground (arith, value-digits fuel (n / 10))

value-pad : (ds : List ℕ) (k : ℕ) → value (ds ++ replicate k 0) ≡ value ds
unfolding value
value-pad [] zero = refl
value-pad [] (suc k) = omega (arith, value-pad [] k)
value-pad (d ∷ ds) k = omega (arith, value-pad ds k)

map-reverse : (f : ℕ → ℕ) (l : List ℕ) → map f (reverse l) ≡ reverse (map f l)
map-reverse f [] = refl
map-reverse f (x ∷ l) =
    ap (map f) (reverse-cons x l)
    ∙ map-append f (reverse l) (x ∷ [])
    ∙ ap (λ k. k ++ f x ∷ []) (map-reverse f l)
    ∙ sym (reverse-cons (f x) (map f l))

unshift : (ds : List ℕ) → map (λ c. c - 48) (map (λ d. d + 48) ds) ≡ ds
unshift [] = refl
unshift (d ∷ ds) = ground (arith, unshift ds)

-- What `int(policy_id[1:])` gives.
unfoldable pub version_of : PolicyId → ℕ
unfolding value
version_of [] = 0
version_of (v ∷ cs) = value (map (λ c. c - 48) (reverse cs))

-- The version can be read back from the identifier, however many digits it has.
version_of-policy_id : (version : ℕ) → version_of (policy_id version) ≡ version
unfolding version_of policy_id
version_of-policy_id n =
    let ds = digits (suc n) n in
    let padded = ds ++ replicate (3 - length ds) 0 in
    ap (λ cs. value (map (λ c. c - 48) cs))
      (sym (map-reverse (λ d. d + 48) (reverse padded))
        ∙ ap (map (λ d. d + 48)) (reverse-reverse padded))
    ∙ ap value (unshift padded)
    ∙ value-pad ds (3 - length ds)
    ∙ value-digits (suc n) n (omega arith)

pub policy_id_injective : (a b : ℕ) → policy_id a ≡ policy_id b → a ≡ b
policy_id_injective a b e = sym (version_of-policy_id a) ∙ ap version_of e ∙ version_of-policy_id b

two_digits : policy_id 42 ≡ b'v' ∷ b'0' ∷ b'4' ∷ b'2' ∷ []
unfolding policy_id
two_digits = refl
