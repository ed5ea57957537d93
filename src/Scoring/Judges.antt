-- ===== src/Scoring/Judges.antt =====
-- What `_parse_scores` reads from a judge's answer, once the JSON library has read its text. `one`
-- is the score 1.0.
use reinforce_spec.Prelude.{
  ℕ, ◌*◌, Bool, true, false, String, List, [], ◌∷◌, Option, none, some, min, max, if◌then◌else◌,
  ◌==◌, string_eq,
}
use reinforce_spec.Scoring.Weights.{dimensions}

pub data Number : Type 0 where
  finite : ℕ → Number
  negative infinite nan : Number

mutual
  pub data Json : Type 0 where
    object : Members → Json
    number : Number → Json
    -- An integer that is too large for a float.
    huge : Json
    boolean : Bool → Json
    text : String → Json
    other : Json

  pub data Members : Type 0 where
    nil : Members
    member : String → Json → Members → Members

-- `d.get(key, default)`: the last member of the name counts.
abbrev pub get : String → Json → Members → Json
get key default Members.nil = default
get key default (Members.member name value rest) =
    get key (if name == key then value else default) rest

-- `max(1.0, min(5.0, score))`, where `min(5.0, nan)` is 5.0.
abbrev pub clamped : ℕ → Number → ℕ
clamped one (Number.finite n) = max one (min (5 * one) n)
clamped one Number.negative = one
clamped one Number.infinite = 5 * one
clamped one Number.nan = 5 * one

-- A value as a float, a ValueError or TypeError, or an OverflowError.
pub data Read : Type 0 where
  converted : Number → Read
  refused overflows : Read

abbrev pub text_read : Option Number → Read
text_read none = refused
text_read (some n) = converted n

-- `float(value)`
abbrev pub float_of : (String → Option Number) → ℕ → Json → Read
float_of read one (Json.number n) = converted n
float_of read one Json.huge = overflows
float_of read one (Json.boolean true) = converted (Number.finite one)
float_of read one (Json.boolean false) = converted (Number.finite 0)
float_of read one (Json.text t) = text_read (read t)
float_of read one (Json.object members) = refused
float_of read one Json.other = refused

-- The score of one dimension, before it is clamped.
abbrev pub dimension_score : (String → Option Number) → ℕ → Json → Read
dimension_score read one (Json.object members) =
    float_of read one (get "score" (Json.number (Number.finite one)) members)
dimension_score read one (Json.number n) = converted n
dimension_score read one Json.huge = overflows
dimension_score read one (Json.boolean b) = float_of read one (Json.boolean b)
dimension_score read one (Json.text t) = converted (Number.finite one)
dimension_score read one Json.other = converted (Number.finite one)

-- How the loop over the dimensions ends; an OverflowError is not caught.
pub data Extracted : Type 0 where
  extracted : List (String × ℕ) → Extracted
  failed overflowed : Extracted

abbrev pub with_score : ℕ → String → Read → Extracted → Extracted
with_score one dimension (converted n) (extracted scores) =
    extracted ((dimension, clamped one n) ∷ scores)
with_score one dimension (converted n) failed = failed
with_score one dimension (converted n) overflowed = overflowed
with_score one dimension refused rest = failed
with_score one dimension overflows rest = overflowed

unfoldable pub extract_scores : (String → Option Number) → ℕ → Members → List String → Extracted
extract_scores read one evaluations [] = extracted []
extract_scores read one evaluations (dimension ∷ rest) =
    with_score one dimension
      (dimension_score read one (get dimension (Json.object Members.nil) evaluations))
      (extract_scores read one evaluations rest)

abbrev pub minimum_scores : ℕ → List String → List (String × ℕ)
minimum_scores one [] = []
minimum_scores one (dimension ∷ rest) = (dimension, one) ∷ minimum_scores one rest

abbrev pub or_minimum : ℕ → Extracted → Option (List (String × ℕ))
or_minimum one (extracted scores) = some scores
or_minimum one failed = some (minimum_scores one dimensions)
or_minimum one overflowed = none

-- The evaluations that are read; none is the AttributeError of what is no object.
abbrev pub evaluations_of : Json → Option Members
evaluations_of (Json.object members) =
    elim (get "evaluations" (get "scores" (Json.object members) members) members) [
      | Json.object evaluations ↦ some evaluations
      | _ ↦ none
    ]
evaluations_of _ = none

abbrev pub scores_from : (String → Option Number) → ℕ → Option Members → Option (List (String × ℕ))
scores_from read one none = none
scores_from read one (some evaluations) =
    or_minimum one (extract_scores read one evaluations dimensions)

-- `_parse_scores`, of none where the text is no JSON.
unfoldable pub parse_scores :
    (String → Option Number) → ℕ → Option Json → Option (List (String × ℕ))
parse_scores read one none = some (minimum_scores one dimensions)
parse_scores read one (some answer) = scores_from read one (evaluations_of answer)
