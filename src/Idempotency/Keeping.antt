-- ===== src/Idempotency/Keeping.antt =====
-- What arriving requests do to a response that is saved and not stale.
use reinforce_spec.Prelude.{
  ℕ, ◌+◌, ◌≤◌, ◌≡◌, ap, ◌∙◌, false, String, List, [], ◌∷◌, Option, none, some, ◌==◌, string_eq,
  arith, Bool-cases, Option-cases, inl, inr,
}
use reinforce_spec.Prelude.Dict.{lookup, lookup-erase}
use reinforce_spec.Idempotency.Defs.{
  Store, check, check_entry, evict_expired, is_stale, acquire, is_held,
}
use reinforce_spec.Idempotency.Middleware.{
  Request, Saved, replayed, is_mutating, key_of, claim, answer, begin_key, begin,
}
use reinforce_spec.Idempotency.AtMostOnce.{enter, is_running}

module _ {ℓ} {J : Type ℓ} (key : String) (at ttl : ℕ) (d : Saved J) where
  pub lookup-evict :
      (now : ℕ) (m : List (String × (ℕ × Saved J)))
      → lookup key m ≡ some (at, d)
      → now ≤ at + ttl
      → lookup key (evict_expired ttl now m) ≡ some (at, d)
  unfolding lookup evict_expired
  lookup-evict now [] e h = e
  lookup-evict now ((k, (ts, x)) ∷ m) e h = ground (arith, lookup-evict now m)

  -- The entry is there, and no request with the key runs.
  pub record Keeps (keys : List String) (s : Store (Saved J)) : Type ℓ where
    pub entry : lookup key s.memory ≡ some (at, d)
    pub lifetime : s.ttl ≡ ttl
    pub idle : is_running key keys ≡ false

  check-same :
      (now : ℕ) (s : Store (Saved J))
      → lookup key s.memory ≡ some (at, d)
      → s.ttl ≡ ttl
      → now ≤ at + ttl
      → check now key s ≡ (some d, s)
  unfolding check check_entry
  check-same now s e l h =
      let fresh : is_stale s.ttl now at ≡ false = rw l (ground arith) in rw (e, check) (rw fresh)

  pub begin_key-same :
      (now : ℕ) (s : Store (Saved J))
      → lookup key s.memory ≡ some (at, d)
      → s.ttl ≡ ttl
      → now ≤ at + ttl
      → begin_key now key s ≡ (replayed d, s)
  unfolding begin_key answer
  begin_key-same now s e l h = ap (answer key) (check-same now s e l h)

  check-other :
      (now : ℕ) (k : String) (s : Store (Saved J))
      → (k == key) ≡ false
      → lookup key s.memory ≡ some (at, d)
      → lookup key (check now k s).1.memory ≡ some (at, d)
  unfolding check check_entry
  check-other now k s h e = ground (arith, lookup-erase k key s.memory)

  ttl-check : (now : ℕ) (k : String) (s : Store (Saved J)) → (check now k s).1.ttl ≡ s.ttl
  unfolding check check_entry
  ttl-check now k s = ground arith

  answer-Keeps :
      (k : String) (x : Option (Saved J) × Store (Saved J)) (keys : List String)
      → (k == key) ≡ false
      → Keeps keys x.1
      → Keeps (enter (answer k x).0 keys) (answer k x).1
  unfolding answer
  answer-Keeps k (some cached, s) keys h v = v
  answer-Keeps k (none, s) keys h v = elim (Bool-cases (is_held (lookup k s.locks))) [
    | inl held ↦ unfold claim acquire in rw (held, acquire) v
    | inr idle ↦
        unfold claim acquire in
        rw (idle, acquire) (record { entry = v.entry; lifetime = v.lifetime; idle = rw h v.idle })
  ]

  begin_key-Keeps :
      (now : ℕ) (k : String) (s : Store (Saved J)) (keys : List String)
      → now ≤ at + ttl
      → Keeps keys s
      → Keeps (enter (begin_key now k s).0 keys) (begin_key now k s).1
  begin_key-Keeps now k s keys h v = elim (Bool-cases (k == key)) [
    | inl same ↦
        let e : k ≡ key = (string_eq.same_iff k key).0 same in
        rw (e, begin_key-same now s v.entry v.lifetime h) v
    | inr other ↦
        unfold begin_key in
        answer-Keeps k (check now k s) keys other (record {
          entry = check-other now k s other v.entry;
          lifetime = ttl-check now k s ∙ v.lifetime;
          idle = v.idle;
        })
  ]

  pub begin-Keeps :
      (now : ℕ) (request : Request) (s : Store (Saved J)) (keys : List String)
      → now ≤ at + ttl
      → Keeps keys s
      → Keeps (enter (begin now request s).0 keys) (begin now request s).1
  unfolding begin
  begin-Keeps now request s keys h v = elim (Bool-cases (is_mutating request.method)) [
    | inr other ↦ rw (other, begin) v
    | inl mutating ↦ elim (Option-cases (key_of request.key)) [
      | inl none_given ↦ rw (mutating, none_given, begin) v
      | inr (k, given) ↦ rw (mutating, given, begin) (begin_key-Keeps now k s keys h v)
    ]
  ]
