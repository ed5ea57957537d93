-- ===== src/Idempotency/Replay.antt =====
-- A saved response answers every later request with its key until it expires.
use reinforce_spec.Prelude.{
  ℕ, ◌+◌, ◌≤◌, ◌≡◌, ◌⊎◌, ap, none, refl, ◌∙◌, true, false, String, List, [], ◌∷◌, Option, some,
  ◌==◌, string_eq, arith, Bool-cases, Option-cases, inl, inr,
}
use reinforce_spec.Prelude.Dict.{lookup, lookup-insert, insert}
use reinforce_spec.Idempotency.Defs.{Store, save, release}
use reinforce_spec.Idempotency.Middleware.{
  Request, Response, Saved, replayed, is_mutating, key_of, begin, Outcome, returned, raised,
  json_response, rendered, Reply, replied, failed, store_response, settle, finish, saved_body,
  is_success,
}
use reinforce_spec.Idempotency.AtMostOnce.{
  System, Event, arrives, ends, step, run, count, remove, is_running, Agrees, count-remove,
}
use reinforce_spec.Idempotency.Keeping.{Keeps, lookup-evict, begin_key-same, begin-Keeps}

is_running-remove :
    (key k : String) (keys : List String)
    → is_running key keys ≡ false
    → is_running key (remove k keys) ≡ false
is_running-remove key k [] h = refl
is_running-remove key k (j ∷ js) h = ground (arith, is_running-remove key k js)

is_running-count :
    (key : String) (keys : List String) → count key keys ≡ 0 → is_running key keys ≡ false
is_running-count key [] h = refl
is_running-count key (j ∷ js) h = ground (arith, is_running-count key js)

-- Every clock reading of the events is at most `limit`.
abbrev pub Within : ℕ → List Event → Type 0
Within limit [] = Unit {0}
Within limit (arrives now request ∷ es) = (now ≤ limit) × Within limit es
Within limit (ends now later k outcome ∷ es) = (later ≤ limit) × Within limit es

is-other :
    (key k : String) (keys : List String)
    → is_running k keys ≡ true
    → is_running key keys ≡ false
    → (k == key) ≡ false
is-other key k keys is idle = elim (Bool-cases (k == key)) [
  | inr other ↦ other
  | inl same ↦ let e : k ≡ key = (string_eq.same_iff k key).0 same in ground (arith, is, idle, e)
]

-- What a client gets of a saved status code and JSON value: the text null where there is no value,
-- the rendering of the value, or an exception where it has none.
abbrev pub AsJson {ℓ} : {J : Type ℓ} → (J → Option String) → ℕ → Option J → Reply → Type 0
AsJson dumps status none reply = reply ≡ replied (record { status_code = status; body = "null" })
AsJson dumps status (some value) reply =
    ((text : String) × (dumps value ≡ some text)
      × (reply ≡ replied (record { status_code = status; body = text })))
    ⊎ ((dumps value ≡ none) × (reply ≡ failed))

json_response-AsJson {ℓ} :
    {J : Type ℓ} (dumps : J → Option String) (status : ℕ) (body : Option J)
    → AsJson dumps status body (json_response dumps (record { status_code = status; body = body }))
unfolding json_response
json_response-AsJson dumps status none = refl
json_response-AsJson dumps status (some value) = elim (Option-cases (dumps value)) [
  | inl e ↦ inr (e, ap (rendered dumps status) e)
  | inr (text, e) ↦ inl (text, e, ap (rendered dumps status) e)
]

module _ {ℓ} {J : Type ℓ} (loads : String → Option J) where
  module _ (key : String) (at ttl : ℕ) (d : Saved J) where
    save-entry :
        (now later : ℕ) (k : String) (x : Saved J) (s : Store (Saved J))
        → (k == key) ≡ false
        → lookup key s.memory ≡ some (at, d)
        → s.ttl ≡ ttl
        → later ≤ at + ttl
        → lookup key (save now later k x s).memory ≡ some (at, d)
    unfolding save
    save-entry now later k x s other e l h = rw l (
        lookup-evict key at ttl d later (insert k (now, x) s.memory) (rw (lookup-insert, other) e)
          h)

    settle-entry :
        (now later : ℕ) (k : String) (outcome : Outcome) (s : Store (Saved J))
        → (k == key) ≡ false
        → lookup key s.memory ≡ some (at, d)
        → s.ttl ≡ ttl
        → later ≤ at + ttl
        → lookup key (settle loads now later k outcome s).1.memory ≡ some (at, d)
    unfolding settle store_response
    settle-entry now later k raised s other e l h = e
    settle-entry now later k (returned r) s other e l h =
        elim (Bool-cases (is_success r.status_code)) [
          | inr failure ↦ rw (failure, settle) e
          | inl success ↦ elim (Option-cases (saved_body loads r.body)) [
            | inl unreadable ↦ rw (success, unreadable, settle) e
            | inr (b, readable) ↦
                rw (success, readable, settle)
                  (save-entry now later k (record { status_code = r.status_code; body = b }) s other
                    e l h)
          ]
        ]

    ttl-settle :
        (now later : ℕ) (k : String) (outcome : Outcome) (s : Store (Saved J))
        → (settle loads now later k outcome s).1.ttl ≡ s.ttl
    unfolding settle store_response save
    ttl-settle now later k raised s = refl
    ttl-settle now later k (returned r) s = ground arith

    step-Keeps :
        (sys : System J) (e : Event) (es : List Event)
        → Within (at + ttl) (e ∷ es)
        → Keeps key at ttl d sys.running sys.store
        → Keeps key at ttl d (step loads sys e).running (step loads sys e).store
    unfolding step finish release
    step-Keeps sys (arrives now request) es w v =
        begin-Keeps key at ttl d now request sys.store sys.running w.0 v
    step-Keeps sys (ends now later k outcome) es w v =
        elim (Bool-cases (is_running k sys.running)) [
          | inr idle ↦ rw (idle, step) v
          | inl is ↦
              rw (is, step)
                (record {
                  entry =
                      settle-entry now later k outcome sys.store
                        (is-other key k sys.running is v.idle) v.entry v.lifetime w.0;
                  lifetime = ttl-settle now later k outcome sys.store ∙ v.lifetime;
                  idle = is_running-remove key k sys.running v.idle;
                })
        ]

    run-Keeps :
        (sys : System J) (es : List Event)
        → Within (at + ttl) es
        → Keeps key at ttl d sys.running sys.store
        → Keeps key at ttl d (run loads sys es).running (run loads sys es).store
    unfolding run
    run-Keeps sys [] w v = v
    run-Keeps sys (arrives now request ∷ es) w v =
        run-Keeps (step loads sys (arrives now request)) es w.1
          (step-Keeps sys (arrives now request) es w v)
    run-Keeps sys (ends now later k outcome ∷ es) w v =
        run-Keeps (step loads sys (ends now later k outcome)) es w.1
          (step-Keeps sys (ends now later k outcome) es w v)

  -- What a request that holds the lock leaves behind when it succeeds.
  ends-Keeps :
      (sys : System J) (key : String) (now later : ℕ) (r : Response) (b : Option J)
      → Agrees sys
      → is_running key sys.running ≡ true
      → is_success r.status_code ≡ true
      → saved_body loads r.body ≡ some b
      → later ≤ now + sys.store.ttl
      → let d : Saved J = record { status_code = r.status_code; body = b } in
        let sys' = step loads sys (ends now later key (returned r)) in
        Keeps key now sys.store.ttl d sys'.running sys'.store
  unfolding step finish settle store_response save release
  ends-Keeps sys key now later r b a is success readable h =
      let d : Saved J = record { status_code = r.status_code; body = b } in
      rw (is, success, readable, step, finish, settle)
        (record {
          entry =
              lookup-evict key now sys.store.ttl d later (insert key (now, d) sys.store.memory)
                (ground (
                  arith,
                  lookup-insert key key (now, d) sys.store.memory,
                  string_eq.same_iff key key,
                ))
                h;
          lifetime = refl;
          idle = is_running-count key (remove key sys.running) (
              ground
                (arith, count-remove key key sys.running is, a key, string_eq.same_iff key key));
        })

  -- A request that holds the lock of its key returns a success whose body is empty or a JSON text, at
  -- `now`, and its eviction runs within the lifetime. Then, whatever other tasks do until the entry
  -- expires, every mutating request with the key, whatever its own body, does not reach the
  -- application and changes nothing in the store: it gets that status code with the rendering of the
  -- JSON value of that body, with null for an empty body, or an exception where there is no rendering.
  pub success-replays :
      (dumps : J → Option String) (sys : System J) (key : String) (now later : ℕ) (r : Response)
      (b : Option J) (es : List Event) (now' : ℕ) (request : Request)
      → Agrees sys
      → is_running key sys.running ≡ true
      → is_success r.status_code ≡ true
      → saved_body loads r.body ≡ some b
      → later ≤ now + sys.store.ttl
      → Within (now + sys.store.ttl) es
      → now' ≤ now + sys.store.ttl
      → is_mutating request.method ≡ true
      → key_of request.key ≡ some key
      → let after = (run loads (step loads sys (ends now later key (returned r))) es).store in
        (saved : Saved J) × (begin now' request after ≡ (replayed saved, after))
        × AsJson dumps r.status_code b (json_response dumps saved)
  success-replays dumps sys key now later r b es now' request a is success readable h w h' mutating
        given =
      let d : Saved J = record { status_code = r.status_code; body = b } in
      let first = ends-Keeps sys key now later r b a is success readable h in
      let sys' = step loads sys (ends now later key (returned r)) in
      let v = run-Keeps key now sys.store.ttl d sys' es w first in
      (
        d,
        (unfold begin in
            rw (mutating, given)
              (begin_key-same key now sys.store.ttl d now' (run loads sys' es).store v.entry
                v.lifetime h')),
        json_response-AsJson dumps r.status_code b,
      )
