-- ===== src/Scoring/Trimming.antt =====
-- `aggregate_scores_trimmed_mean` of reinforce_spec/_internal/_bias.py. Its result is read one
-- dimension at a time. A fraction is its numerator and denominator, and a mean rounds down.
use reinforce_spec.Prelude.{
  ℕ, ◌+◌, ◌-◌, ◌*◌, ◌/◌, Bool, ◌&&◌, String, List, [], ◌∷◌, Option, none, some, max, length, take,
  drop, ltb, leb, if◌then◌else◌, string_eq,
}
use reinforce_spec.Prelude.Dict.{lookup}
use reinforce_spec.Prelude.Sort.{sort_desc}

abbrev pub sum : List ℕ → ℕ
sum [] = 0
sum (x ∷ xs) = x + sum xs

abbrev pub mean : List ℕ → ℕ
mean xs = sum xs / length xs

-- `sorted` puts the smaller value first.
abbrev pub sorts_after : ℕ → ℕ → Bool
sorts_after x y = ltb y x

-- `values[count:-count]`
abbrev pub between : ℕ → List ℕ → List ℕ
between count values = drop count (take (length values - count) values)

abbrev pub trim_count_of : ℕ × ℕ → ℕ → ℕ
trim_count_of (num, den) n = max 1 (n * num / den)

unfoldable pub trimmed : ℕ × ℕ → List ℕ → List ℕ
trimmed (num, den) values =
    let trim_count = trim_count_of (num, den) (length values) in
    if leb 3 (length values) && ltb 0 num
    then (if ltb trim_count (length values / 2) then between trim_count values else values)
    else values

abbrev pub with_value : Option ℕ → List ℕ → List ℕ
with_value none values = values
with_value (some v) values = v ∷ values

-- The scores of one dimension.
unfoldable pub values_of : String → List (List (String × ℕ)) → List ℕ
values_of dim [] = []
values_of dim (scores ∷ rest) = with_value (lookup dim scores) (values_of dim rest)

abbrev pub mean_of_trimmed : ℕ × ℕ → List ℕ → Option ℕ
mean_of_trimmed fraction [] = none
mean_of_trimmed fraction (v ∷ values) =
    some (mean (trimmed fraction (sort_desc sorts_after (v ∷ values))))

-- The entry of a dimension in the aggregated scores.
unfoldable pub aggregate_scores_trimmed_mean : ℕ × ℕ → List (List (String × ℕ)) → String → Option ℕ
unfolding values_of
aggregate_scores_trimmed_mean fraction [] dim = none
aggregate_scores_trimmed_mean fraction (scores ∷ []) dim = lookup dim scores
aggregate_scores_trimmed_mean fraction (scores ∷ more ∷ rest) dim =
    mean_of_trimmed fraction (values_of dim (scores ∷ more ∷ rest))
