-- ===== src/Idempotency/Defs.antt =====
-- The store, without Redis. A reading of `time.monotonic()` is an argument.
use reinforce_spec.Prelude.{
  ℕ, ◌+◌, Bool, true, false, String, List, [], ◌∷◌, Option, none, some, ltb, if◌then◌else◌,
  string_eq,
}
use reinforce_spec.Prelude.Dict.{lookup, insert, erase}

-- `D` is what is stored: the dictionaries with the status code and the body.
pub record Store {ℓ} (D : Type ℓ) : Type ℓ where
  pub ttl : ℕ
  pub memory : List (String × (ℕ × D))
  -- For each key its asyncio lock, as whether it is held.
  pub locks : List (String × Bool)

-- `now - ts > self._ttl`, without the subtraction.
abbrev pub is_stale : ℕ → ℕ → ℕ → Bool
is_stale ttl now ts = ltb (ts + ttl) now

-- `locked()`, where a key without a lock is not held.
abbrev pub is_held : Option Bool → Bool
is_held none = false
is_held (some held) = held

module _ {ℓ} {D : Type ℓ} where
  unfoldable pub init : ℕ → Store D
  init ttl_seconds = record { ttl = ttl_seconds; memory = []; locks = [] }

  unfoldable pub check_entry : ℕ → String → Store D → Option (ℕ × D) → Option D × Store D
  check_entry now key s none = (none, s)
  check_entry now key s (some (ts, response)) =
      if is_stale s.ttl now ts
      then (none, record s { memory = erase key s.memory })
      else (some response, s)

  -- `check`: a stale entry is deleted on the way.
  unfoldable pub check : ℕ → String → Store D → Option D × Store D
  unfolding check_entry
  check now key s = check_entry now key s (lookup key s.memory)

  -- `_evict_expired`: the loop over the stale entries deletes them one by one.
  unfoldable pub evict_expired : ℕ → ℕ → List (String × (ℕ × D)) → List (String × (ℕ × D))
  evict_expired ttl now [] = []
  evict_expired ttl now ((key, (ts, response)) ∷ rest) =
      let kept = evict_expired ttl now rest in
      if is_stale ttl now ts then kept else (key, (ts, response)) ∷ kept

  -- `save` reads the clock for the entry and once more for the eviction.
  unfoldable pub save : ℕ → ℕ → String → D → Store D → Store D
  save now later key response s = record s {
    memory = evict_expired s.ttl later (insert key (now, response) s.memory);
  }

  -- `acquire`: `none` is IdempotencyConflictError. A lock that is not there yet is made.
  unfoldable pub acquire : String → Store D → Option (Store D)
  acquire key s =
      if is_held (lookup key s.locks)
      then none
      else some (record s { locks = insert key true s.locks })

  unfoldable pub release : String → Store D → Store D
  release key s = record s { locks = erase key s.locks }
