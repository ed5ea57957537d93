-- ===== src/Scoring/Robust.antt =====
-- What a few stray judges can do to an aggregated score.
use reinforce_spec.Prelude.{
  ℕ, zero, suc, ◌+◌, ◌-◌, ◌*◌, ◌/◌, ◌≤◌, ◌<◌, ◌≡◌, refl, ap, ◌∙◌, Bool, false, String, List, [],
  ◌∷◌, some, length, take, drop, ltb, All, arith, length-take, Bool-cases, inl, inr,
}
use native.Mathlib.Nat.{le-div_iff_mul-le, div-le_of_le-mul}
use reinforce_spec.Prelude.Sort.{sort_desc, Descending, sort_desc-Descending}
use reinforce_spec.Prelude.Counting.{count, count-sort_desc, length-sort_desc, All-take, All-drop}
use reinforce_spec.Scoring.Trimming.{
  sum, mean, sorts_after, between, trim_count_of, trimmed, mean_of_trimmed, values_of,
  aggregate_scores_trimmed_mean,
}

-- The values that are too low, and those that are too high.
abbrev pub too_low : ℕ → ℕ → Bool
too_low lo x = ltb x lo

abbrev pub too_high : ℕ → ℕ → Bool
too_high hi x = ltb hi x

abbrev pub Ascending : List ℕ → Type 0
Ascending = Descending sorts_after

sorted-Ascending : (xs : List ℕ) → Ascending (sort_desc sorts_after xs)
sorted-Ascending =
    sort_desc-Descending sorts_after (λ x y h. ground (arith, h))
      (λ x y z h k. ground (arith, h, k))

All-later :
    (lo x : ℕ) (xs : List ℕ) → lo ≤ x → All (λ y. sorts_after x y ≡ false) xs → All (λ y. lo ≤ y) xs
All-later lo x [] h a = tt
All-later lo x (y ∷ ys) h (a, more) = (ground (arith, h, a), All-later lo x ys h more)

all_too_high :
    (hi x : ℕ) (xs : List ℕ)
    → hi < x
    → All (λ y. sorts_after x y ≡ false) xs
    → count (too_high hi) xs ≡ length xs
all_too_high hi x [] h a = refl
all_too_high hi x (y ∷ ys) h (a, more) = ground (arith, h, a, all_too_high hi x ys h more)

none_too_low : (lo : ℕ) (xs : List ℕ) → count (too_low lo) xs ≡ 0 → All (λ y. lo ≤ y) xs
none_too_low lo [] h = tt
none_too_low lo (x ∷ xs) h = (ground (arith, h), none_too_low lo xs (ground (arith, h)))

-- A prefix that leaves out as many values as are too high has none of them.
take-low_enough :
    (hi m : ℕ) (xs : List ℕ)
    → Ascending xs
    → count (too_high hi) xs + m ≤ length xs
    → All (λ y. y ≤ hi) (take m xs)
take-low_enough hi zero xs s h = tt
take-low_enough hi (suc m) [] s h = tt
take-low_enough hi (suc m) (x ∷ xs) (a, s) h = (
  ground (arith, h, all_too_high hi x xs),
  take-low_enough hi m xs s (ground (arith, h, all_too_high hi x xs)),
)

-- What is left after as many values as are too low has none of them.
drop-high_enough :
    (lo k m : ℕ) (xs : List ℕ)
    → Ascending xs
    → count (too_low lo) xs ≤ k
    → All (λ y. lo ≤ y) (drop k (take m xs))
drop-high_enough lo zero m xs s h =
    All-take (λ y. lo ≤ y) m xs (none_too_low lo xs (omega (arith, h)))
drop-high_enough lo (suc k) zero xs s h = tt
drop-high_enough lo (suc k) (suc m) [] s h = tt
drop-high_enough lo (suc k) (suc m) (x ∷ xs) (a, s) h = elim (Bool-cases (ltb x lo)) [
  | inl low ↦ drop-high_enough lo k m xs s (ground (arith, h, low))
  | inr enough ↦
      All-drop (λ y. lo ≤ y) k (take m xs)
        (All-take (λ y. lo ≤ y) m xs (All-later lo x xs (ground (arith, enough)) a))
]

sum-ge : (lo : ℕ) (xs : List ℕ) → All (λ y. lo ≤ y) xs → lo * length xs ≤ sum xs
sum-ge lo [] a = omega arith
sum-ge lo (x ∷ xs) (a, more) = grind (arith, a, sum-ge lo xs more)

sum-le : (hi : ℕ) (xs : List ℕ) → All (λ y. y ≤ hi) xs → sum xs ≤ length xs * hi
sum-le hi [] a = omega arith
sum-le hi (x ∷ xs) (a, more) = grind (arith, a, sum-le hi xs more)

pub mean-within :
    (lo hi : ℕ) (xs : List ℕ)
    → 0 < length xs
    → All (λ y. lo ≤ y) xs
    → All (λ y. y ≤ hi) xs
    → (lo ≤ mean xs) × (mean xs ≤ hi)
mean-within lo hi xs some_left low high = (
  (le-div_iff_mul-le some_left).1 (sum-ge lo xs low),
  div-le_of_le-mul (length xs) (sum-le hi xs high),
)

pub length-drop : (k : ℕ) (xs : List ℕ) → length (drop k xs) ≡ length xs - k
length-drop zero xs = omega arith
length-drop (suc k) [] = omega arith
length-drop (suc k) (x ∷ xs) = omega (arith, length-drop k xs)

between-within :
    (lo hi k : ℕ) (xs : List ℕ)
    → k < length xs / 2
    → count (too_low lo) xs ≤ k
    → count (too_high hi) xs ≤ k
    → (lo ≤ mean (between k (sort_desc sorts_after xs)))
      × (mean (between k (sort_desc sorts_after xs)) ≤ hi)
between-within lo hi k xs small low high =
    let values = sort_desc sorts_after xs in
    let m = length values - k in
    let same = length-sort_desc sorts_after xs in
    let lows = count-sort_desc sorts_after (too_low lo) xs in
    let highs = count-sort_desc sorts_after (too_high hi) xs in
    mean-within lo hi (between k values)
      (omega (arith, length-drop k (take m values), length-take m values, same, small))
      (drop-high_enough lo k m values (sorted-Ascending xs) (omega (arith, lows, low)))
      (All-drop (λ y. y ≤ hi) k (take m values)
        (take-low_enough hi m values (sorted-Ascending xs)
          (omega (arith, highs, high, small, same))))

trimmed-between :
    (values : List ℕ)
    → 4 ≤ length values
    → trimmed (1, 4) values ≡ between (trim_count_of (1, 4) (length values)) values
unfolding trimmed
trimmed-between values four = ground (arith, four)

mean_of_trimmed-within :
    (lo hi : ℕ) (values : List ℕ)
    → 4 ≤ length values
    → count (too_low lo) values ≤ trim_count_of (1, 4) (length values)
    → count (too_high hi) values ≤ trim_count_of (1, 4) (length values)
    → (m : ℕ) × (mean_of_trimmed (1, 4) values ≡ some m) × (lo ≤ m) × (m ≤ hi)
mean_of_trimmed-within lo hi [] four low high = absurd (ground (arith, four))
mean_of_trimmed-within lo hi (v ∷ values) four low high =
    let sorted = sort_desc sorts_after (v ∷ values) in
    let same = length-sort_desc sorts_after (v ∷ values) in
    let k = trim_count_of (1, 4) (length (v ∷ values)) in
    let within = between-within lo hi k (v ∷ values) (omega (arith, four)) low high in
    (
      mean (between k sorted),
      ap (λ xs. some (mean xs)) (trimmed-between sorted (omega (arith, same, four)))
          ∙ ap (λ n. some (mean (between (trim_count_of (1, 4) n) sorted))) same,
      within.0,
      within.1,
    )

length-values_of :
    (dim : String) (judges : List (List (String × ℕ)))
    → length (values_of dim judges) ≤ length judges
unfolding values_of
length-values_of dim [] = omega arith
length-values_of dim (scores ∷ rest) = ground (arith, length-values_of dim rest)

-- At least four judges have scored the dimension. If no more of their scores lie below `lo` than are
-- cut off at one end, and no more above `hi`, then the aggregated score is between the two.
pub aggregate-Robust :
    (lo hi : ℕ) (dim : String) (judges : List (List (String × ℕ)))
    → 4 ≤ length (values_of dim judges)
    → count (too_low lo) (values_of dim judges)
      ≤ trim_count_of (1, 4) (length (values_of dim judges))
    → count (too_high hi) (values_of dim judges)
      ≤ trim_count_of (1, 4) (length (values_of dim judges))
    → (m : ℕ) × (aggregate_scores_trimmed_mean (1, 4) judges dim ≡ some m) × (lo ≤ m) × (m ≤ hi)
unfolding aggregate_scores_trimmed_mean
aggregate-Robust lo hi dim [] four low high = absurd (ground (arith, four, length-values_of dim []))
aggregate-Robust lo hi dim (scores ∷ []) four low high =
    absurd (ground (arith, four, length-values_of dim (scores ∷ [])))
aggregate-Robust lo hi dim (scores ∷ more ∷ rest) four low high =
    mean_of_trimmed-within lo hi (values_of dim (scores ∷ more ∷ rest)) four low high
