-- ===== src/RateLimit/Defs.antt =====
-- `dispatch` has no suspension before `call_next`, so each request is one step. Times are readings of
-- the monotonic clock in seconds; the client's address and the test for the health path are given.
use reinforce_spec.Prelude.{
  ℕ, ◌+◌, ◌/◌, max, Bool, true, false, String, List, [], ◌∷◌, ◌++◌, Option, none, some, length, ltb,
  leb, if◌then◌else◌, take, string_eq,
}
use reinforce_spec.Prelude.Dict.{lookup, insert}
use reinforce_spec.Prelude.Sort.{sort_desc}

pub record Limiter : Type 0 where
  pub rpm : ℕ
  pub cleanup_interval : ℕ
  pub max_clients : ℕ
  pub request_count : ℕ
  pub windows : List (String × List ℕ)

unfoldable pub init : ℕ → ℕ → ℕ → Limiter
init requests_per_minute cleanup_interval max_clients = record {
  rpm = requests_per_minute;
  cleanup_interval = cleanup_interval;
  max_clients = max_clients;
  request_count = 0;
  windows = [];
}

-- `now - ts < 60`
abbrev pub is_recent : ℕ → ℕ → Bool
is_recent now ts = ltb now (ts + 60)

-- `[ts for ts in window if now - ts < 60.0]`
unfoldable pub recent : ℕ → List ℕ → List ℕ
recent now [] = []
recent now (ts ∷ window) =
    let rest = recent now window in if is_recent now ts then ts ∷ rest else rest

-- `max(window)`, 0 for an empty one.
abbrev pub latest : List ℕ → ℕ
latest [] = 0
latest (ts ∷ window) = max ts (latest window)

-- `not window or (now - max(window)) > 120.0`
abbrev pub is_stale : ℕ → List ℕ → Bool
is_stale now [] = true
is_stale now (ts ∷ window) = ltb (latest (ts ∷ window) + 120) now

unfoldable pub drop_stale : ℕ → List (String × List ℕ) → List (String × List ℕ)
drop_stale now [] = []
drop_stale now ((ip, window) ∷ rest) =
    let kept = drop_stale now rest in if is_stale now window then kept else (ip, window) ∷ kept

abbrev pub older : String × List ℕ → String × List ℕ → Bool
older x y = ltb (latest x.1) (latest y.1)

-- `_cleanup_stale_entries`
unfoldable pub cleanup_stale_entries : ℕ → Limiter → Limiter
unfolding drop_stale
cleanup_stale_entries now l =
    let windows = drop_stale now l.windows in
    record l {
      windows =
          (if ltb l.max_clients (length windows)
            then take (l.max_clients / 2) (sort_desc older windows)
            else windows);
    }

abbrev pub window_of : Option (List ℕ) → List ℕ
window_of none = []
window_of (some window) = window

-- The count and the periodic cleanup, after the request is entered into its window.
unfoldable pub count_request : ℕ → Limiter → Limiter
unfolding cleanup_stale_entries
count_request now l =
    if leb l.cleanup_interval (l.request_count + 1)
    then record (cleanup_stale_entries now l) { request_count = 0 }
    else record l { request_count = l.request_count + 1 }

-- `dispatch` of a request that is not for the health endpoints: whether it is passed on.
unfoldable pub dispatch : ℕ → String → Limiter → Bool × Limiter
unfolding count_request recent
dispatch now client_ip l =
    let window = recent now (window_of (lookup client_ip l.windows)) in
    if leb l.rpm (length window)
    then (false, record l { windows = insert client_ip window l.windows })
    else (
      true,
      count_request now (record l { windows = insert client_ip (window ++ now ∷ []) l.windows }),
    )
