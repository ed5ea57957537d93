-- ===== src/RateLimit/Windows.antt =====
-- What pruning and cleaning leave of the recent requests.
use reinforce_spec.Prelude.{
  ℕ, ◌+◌, ◌≤◌, ◌≡◌, refl, sym, ap, ◌∙◌, true, String, List, [], ◌∷◌, ◌++◌, none, length, arith,
  Bool-cases, inl, inr, string_eq, ◌==◌,
}
use reinforce_spec.Prelude.Dict.{lookup, insert, lookup-insert}
use reinforce_spec.RateLimit.Defs.{recent, latest, is_stale, drop_stale, window_of}

pub recent-recent :
    (now later : ℕ) (window : List ℕ)
    → now ≤ later
    → recent later (recent now window) ≡ recent later window
unfolding recent
recent-recent now later [] h = refl
recent-recent now later (ts ∷ window) h = ground (arith, h, recent-recent now later window h)

pub recent-append :
    (now ts : ℕ) (window : List ℕ)
    → recent now (window ++ ts ∷ []) ≡ recent now window ++ recent now (ts ∷ [])
unfolding recent
recent-append now ts [] = ground arith
recent-append now ts (x ∷ window) = ground (arith, recent-append now ts window)

recent-old :
    (now last : ℕ) (window : List ℕ)
    → latest window ≤ last
    → last + 60 ≤ now
    → recent now window ≡ []
unfolding recent
recent-old now last [] h g = refl
recent-old now last (ts ∷ window) h g = ground (arith, h, g, recent-old now last window)

pub recent-stale :
    (now later : ℕ) (window : List ℕ)
    → is_stale now window ≡ true
    → now ≤ later
    → recent later window ≡ []
unfolding recent
recent-stale now later [] h g = refl
recent-stale now later (ts ∷ window) h g =
    recent-old later (latest (ts ∷ window)) (ts ∷ window) (omega arith) (ground (arith, h, g))

-- No key stands twice, as in a dictionary.
abbrev pub Unique : List (String × List ℕ) → Type 0
Unique [] = Unit {0}
Unique ((k, window) ∷ rest) = (lookup k rest ≡ none) × Unique rest

pub insert-Unique :
    (k : String) (window : List ℕ) (m : List (String × List ℕ))
    → Unique m
    → Unique (insert k window m)
unfolding insert lookup
insert-Unique k window [] u = (refl, tt)
insert-Unique k window ((j, w) ∷ rest) (fresh, u) = elim (Bool-cases (j == k)) [
  | inl e ↦ rw e (fresh, u)
  | inr e ↦ rw e (
    ground (
      arith,
      e,
      fresh,
      lookup-insert k j window rest,
      string_eq.same_iff j k,
      string_eq.same_iff k j,
    ),
    insert-Unique k window rest u,
  )
]

absent-drop_stale :
    (now : ℕ) (ip : String) (m : List (String × List ℕ))
    → lookup ip m ≡ none
    → lookup ip (drop_stale now m) ≡ none
unfolding lookup drop_stale
absent-drop_stale now ip [] h = refl
absent-drop_stale now ip ((j, w) ∷ rest) h = ground (arith, h, absent-drop_stale now ip rest)

pub drop_stale-Unique :
    (now : ℕ) (m : List (String × List ℕ)) → Unique m → Unique (drop_stale now m)
unfolding drop_stale
drop_stale-Unique now [] u = tt
drop_stale-Unique now ((j, w) ∷ rest) (fresh, u) = elim (Bool-cases (is_stale now w)) [
  | inl e ↦ rw e (drop_stale-Unique now rest u)
  | inr e ↦ rw e (absent-drop_stale now j rest fresh, drop_stale-Unique now rest u)
]

-- A client's recent requests survive the removal of stale clients.
pub recent-drop_stale :
    (now later : ℕ) (ip : String) (windows : List (String × List ℕ))
    → Unique windows
    → now ≤ later
    → recent later (window_of (lookup ip (drop_stale now windows)))
      ≡ recent later (window_of (lookup ip windows))
unfolding drop_stale lookup
recent-drop_stale now later ip [] u h = refl
recent-drop_stale now later ip ((j, w) ∷ rest) (fresh, u) h = elim (Bool-cases (j == ip)) [
  | inr other ↦ elim (Bool-cases (is_stale now w)) [
    | inl e ↦ rw (other, e) (recent-drop_stale now later ip rest u h)
    | inr e ↦ rw (other, e, other) (recent-drop_stale now later ip rest u h)
  ]
  | inl same ↦ elim (Bool-cases (is_stale now w)) [
    | inl e ↦
        let absent : lookup ip rest ≡ none =
          ap (λ k. lookup k rest) (sym ((string_eq.same_iff j ip).0 same)) ∙ fresh in
        rw (same, e, absent-drop_stale now ip rest absent)
          (unfold recent in sym (recent-stale now later w e h))
    | inr e ↦ rw (same, e, same)
  ]
]

pub length-drop_stale :
    (now : ℕ) (m : List (String × List ℕ)) → length (drop_stale now m) ≤ length m
unfolding drop_stale
length-drop_stale now [] = omega arith
length-drop_stale now ((j, w) ∷ rest) = ground (arith, length-drop_stale now rest)

pub length-recent : (now : ℕ) (window : List ℕ) → length (recent now window) ≤ length window
unfolding recent
length-recent now [] = omega arith
length-recent now (ts ∷ window) = ground (arith, length-recent now window)
