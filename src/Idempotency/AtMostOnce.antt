-- ===== src/Idempotency/AtMostOnce.antt =====
-- Requests as tasks that interleave: no two with one key are inside the application at a time.
use reinforce_spec.Prelude.{
  ℕ, ◌+◌, ◌≤◌, ◌≡◌, refl, Bool, true, false, String, List, [], ◌∷◌, Option, none, some,
  if◌then◌else◌, ◌==◌, string_eq, arith, Bool-cases, Option-cases, inl, inr,
}
use reinforce_spec.Prelude.Dict.{lookup, lookup-insert, lookup-erase}
use reinforce_spec.Idempotency.Defs.{Store, check, save, acquire, release, is_held, init}
use reinforce_spec.Idempotency.Middleware.{
  Request, Saved, Begun, forwarded, replayed, conflicts, started, is_mutating, key_of, claim,
  answer, begin_key, begin, Outcome, returned, raised, settle, finish,
}

abbrev pub count : String → List String → ℕ
count k [] = 0
count k (j ∷ js) = (if j == k then 1 else 0) + count k js

-- Takes the first occurrence away.
abbrev pub remove : String → List String → List String
remove k [] = []
remove k (j ∷ js) = if j == k then js else j ∷ remove k js

-- The store, and the keys of the requests that are inside `call_next` with a lock.
pub record System {ℓ} (J : Type ℓ) : Type ℓ where
  pub store : Store (Saved J)
  pub running : List String

pub data Event : Type 0 where
  arrives : ℕ → Request → Event
  ends : ℕ → ℕ → String → Outcome → Event

abbrev pub enter {ℓ} : {J : Type ℓ} → Begun J → List String → List String
enter (started key) keys = key ∷ keys
enter forwarded keys = keys
enter (replayed cached) keys = keys
enter conflicts keys = keys

abbrev pub is_running : String → List String → Bool
is_running k [] = false
is_running k (j ∷ js) = if j == k then true else is_running k js

module _ {ℓ} {J : Type ℓ} (loads : String → Option J) where
  -- A task that is not running cannot end.
  unfoldable pub step : System J → Event → System J
  step sys (arrives now request) =
      let (begun, store) = begin now request sys.store in
      record { store = store; running = enter begun sys.running }
  step sys (ends now later key outcome) =
      if is_running key sys.running
      then record {
        store = (finish loads now later key outcome sys.store).1;
        running = remove key sys.running;
      }
      else sys

  unfoldable pub run : System J → List Event → System J
  run sys [] = sys
  run sys (e ∷ es) = run (step sys e) es

abbrev pub start {ℓ} : {J : Type ℓ} → ℕ → System J
start ttl = record { store = init ttl; running = [] }

abbrev pub held_count : Bool → ℕ
held_count true = 1
held_count false = 0

-- A lock is held exactly while one request with its key runs.
abbrev pub Agrees {ℓ} : {J : Type ℓ} → System J → Type 0
Agrees sys = (k : String) → count k sys.running ≡ held_count (is_held (lookup k sys.store.locks))

module _ {ℓ} {J : Type ℓ} where
  locks-check : (now : ℕ) (key : String) (s : Store (Saved J)) → (check now key s).1.locks ≡ s.locks
  unfolding check
  locks-check now key s = ground arith

  claim-Agrees :
      (key : String) (s : Store (Saved J)) (keys : List String)
      → ((k : String) → count k keys ≡ held_count (is_held (lookup k s.locks)))
      → (k : String)
      → count k (enter (claim key s (acquire key s)).0 keys)
        ≡ held_count (is_held (lookup k (claim key s (acquire key s)).1.locks))
  unfolding claim acquire
  claim-Agrees key s keys a k =
      ground (arith, a k, lookup-insert key k true s.locks, string_eq.same_iff key k)

  abbrev Balanced : List String → Store (Saved J) → Type 0
  Balanced keys s = (k : String) → count k keys ≡ held_count (is_held (lookup k s.locks))

  answer-Balanced :
      (key : String) (x : Option (Saved J) × Store (Saved J)) (keys : List String)
      → Balanced keys x.1
      → Balanced (enter (answer key x).0 keys) (answer key x).1
  unfolding answer
  answer-Balanced key (some cached, s) keys a = a
  answer-Balanced key (none, s) keys a = claim-Agrees key s keys a

  begin_key-Balanced :
      (now : ℕ) (key : String) (s : Store (Saved J)) (keys : List String)
      → Balanced keys s
      → Balanced (enter (begin_key now key s).0 keys) (begin_key now key s).1
  unfolding begin_key
  begin_key-Balanced now key s keys a =
      answer-Balanced key (check now key s) keys (rw (locks-check now key s) a)

  begin-Balanced :
      (now : ℕ) (request : Request) (s : Store (Saved J)) (keys : List String)
      → Balanced keys s
      → Balanced (enter (begin now request s).0 keys) (begin now request s).1
  unfolding begin
  begin-Balanced now request s keys a = elim (Bool-cases (is_mutating request.method)) [
    | inr other ↦ rw (other, begin) a
    | inl mutating ↦ elim (Option-cases (key_of request.key)) [
      | inl none_given ↦ rw (mutating, none_given, begin) a
      | inr (key, given) ↦ rw (mutating, given, begin) (begin_key-Balanced now key s keys a)
    ]
  ]

pub count-remove :
    (key k : String) (keys : List String)
    → is_running key keys ≡ true
    → count k keys ≡ count k (remove key keys) + (if key == k then 1 else 0)
count-remove key k [] h = cc
count-remove key k (j ∷ js) h = ground (
  arith,
  count-remove key k js,
  string_eq.same_iff j key,
  string_eq.same_iff j k,
  string_eq.same_iff key k,
)

module _ {ℓ} {J : Type ℓ} (loads : String → Option J) where
  locks-settle :
      (now later : ℕ) (key : String) (outcome : Outcome) (s : Store (Saved J))
      → (settle loads now later key outcome s).1.locks ≡ s.locks
  unfolding settle save
  locks-settle now later key raised s = refl
  locks-settle now later key (returned r) s = ground arith

  ends-Balanced :
      (now later : ℕ) (key : String) (outcome : Outcome) (s : Store (Saved J)) (keys : List String)
      → is_running key keys ≡ true
      → Balanced keys s
      → Balanced (remove key keys) (finish loads now later key outcome s).1
  unfolding finish release
  ends-Balanced now later key outcome s keys h a k = rw (locks-settle now later key outcome s) (
      ground (
        arith,
        a k,
        count-remove key k keys h,
        lookup-erase key k s.locks,
        string_eq.same_iff key k,
      ))

  step-Agrees : (sys : System J) (e : Event) → Agrees sys → Agrees (step loads sys e)
  unfolding step
  step-Agrees sys (arrives now request) a = begin-Balanced now request sys.store sys.running a
  step-Agrees sys (ends now later key outcome) a = elim (Bool-cases (is_running key sys.running)) [
    | inl is ↦ rw (is, step) (ends-Balanced now later key outcome sys.store sys.running is a)
    | inr not ↦ rw (not, step) a
  ]

  pub run-Agrees : (sys : System J) (es : List Event) → Agrees sys → Agrees (run loads sys es)
  unfolding run
  run-Agrees sys [] a = a
  run-Agrees sys (e ∷ es) a = run-Agrees (step loads sys e) es (step-Agrees sys e a)

  -- From an empty store, however requests arrive, interleave and end: of the POST, PUT and PATCH
  -- requests with a given key, at most one is inside the application, and the lock of the key is held
  -- exactly then. Requests of other methods pass by the store and are not counted.
  pub at_most_one_runs :
      (ttl : ℕ) (es : List Event) (k : String)
      → let sys = run loads (start {J = J} ttl) es in
        (count k sys.running ≤ 1)
        × (count k sys.running ≡ held_count (is_held (lookup k sys.store.locks)))
  at_most_one_runs ttl es k =
      let sys = run loads (start {J = J} ttl) es in
      let a = run-Agrees (start {J = J} ttl) es start-Agrees k in (ground (arith, a), a)
    where
      start-Agrees : Agrees (start {J = J} ttl)
      start-Agrees k = unfold init lookup in refl
