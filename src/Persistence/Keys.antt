-- ===== src/Persistence/Keys.antt =====
-- The idempotency keys as a map from keys to responses with an end.
use reinforce_spec.Prelude.{
  ℕ, ◌+◌, ◌*◌, ◌≤◌, ◌≡◌, refl, sym, ap, subst, ◌∙◌, Bool, false, String, List, [], ◌∷◌, Option,
  none, some, ltb, if◌then◌else◌, ◌==◌, string_eq, arith, All, Bool-cases, inl, inr,
}
use reinforce_spec.Prelude.Counting.{filter}
use reinforce_spec.Persistence.Defs.{
  IdempotencyKey, Storage, is_live, first_response, get_idempotent_response, upsert,
  set_idempotent_response, lives_on, cleanup_expired_idempotency_keys, created,
}

first-cleanup :
    (now later : ℕ) (key : String) (rows : List IdempotencyKey)
    → now ≤ later
    → first_response (filter (is_live key later) (filter (lives_on now) rows))
      ≡ first_response (filter (is_live key later) rows)
first-cleanup now later key [] h = refl
first-cleanup now later key (row ∷ rows) h = ground (arith, h, first-cleanup now later key rows h)

abbrev pub AbsentKey : String → List IdempotencyKey → Type 0
AbsentKey key rows = All (λ row. (row.key == key) ≡ false) rows

-- The primary key: no two rows have the same key.
abbrev pub Distinct : List IdempotencyKey → Type 0
Distinct [] = Unit {0}
Distinct (row ∷ rows) = AbsentKey row.key rows × Distinct rows

-- What a get reads in the rows.
abbrev pub reads : String → ℕ → List IdempotencyKey → Option String
reads key now rows = first_response (filter (is_live key now) rows)

reads-AbsentKey :
    (key : String) (now : ℕ) (rows : List IdempotencyKey)
    → AbsentKey key rows
    → reads key now rows ≡ none
reads-AbsentKey key now [] a = refl
reads-AbsentKey key now (row ∷ rows) (a, more) =
    ground (arith, a, reads-AbsentKey key now rows more)

abbrev pub read_of : ℕ → IdempotencyKey → Option String
read_of now row = if ltb now row.expires_at then some row.response_json else none

reads_first :
    (row : IdempotencyKey) (now : ℕ) (rows : List IdempotencyKey)
    → AbsentKey row.key rows
    → reads row.key now (row ∷ rows) ≡ read_of now row
reads_first row now rows a =
    ground (arith, reads-AbsentKey row.key now rows a, string_eq.same_iff row.key row.key)

upsert-AbsentKey :
    (key : String) (row : IdempotencyKey) (rows : List IdempotencyKey)
    → (row.key == key) ≡ false
    → AbsentKey key rows
    → AbsentKey key (upsert row rows)
unfolding upsert
upsert-AbsentKey key row [] other a = (other, tt)
upsert-AbsentKey key row (old ∷ rows) other (a, more) = elim (Bool-cases (old.key == row.key)) [
  | inl same ↦ rw same (other, more)
  | inr differs ↦ rw differs (a, upsert-AbsentKey key row rows other more)
]

upsert-Distinct :
    (row : IdempotencyKey) (rows : List IdempotencyKey) → Distinct rows → Distinct (upsert row rows)
unfolding upsert
upsert-Distinct row [] d = (tt, tt)
upsert-Distinct row (old ∷ rows) (a, d) = elim (Bool-cases (old.key == row.key)) [
  | inl same ↦
      let e = (string_eq.same_iff old.key row.key).0 same in
      rw same (subst (λ k. AbsentKey k rows) e a, d)
  | inr differs ↦ rw differs (
    upsert-AbsentKey old.key row rows
        (ground
          (arith, differs, string_eq.same_iff old.key row.key, string_eq.same_iff row.key old.key))
        a,
    upsert-Distinct row rows d,
  )
]

reads-upsert :
    (key : String) (row : IdempotencyKey) (now : ℕ) (rows : List IdempotencyKey)
    → Distinct rows
    → reads key now (upsert row rows)
      ≡ (if row.key == key then read_of now row else reads key now rows)
unfolding upsert
reads-upsert key row now [] d = ground (arith, string_eq.same_iff row.key key)
reads-upsert key row now (old ∷ rows) (a, d) = ground (
  arith,
  reads-upsert key row now rows d,
  reads-AbsentKey old.key now rows a,
  string_eq.same_iff row.key key,
  string_eq.same_iff old.key key,
  string_eq.same_iff old.key row.key,
)

filter-AbsentKey :
    (key : String) (p : IdempotencyKey → Bool) (rows : List IdempotencyKey)
    → AbsentKey key rows
    → AbsentKey key (filter p rows)
filter-AbsentKey key p [] a = tt
filter-AbsentKey key p (row ∷ rows) (a, more) = elim (Bool-cases (p row)) [
  | inl kept ↦ rw kept (a, filter-AbsentKey key p rows more)
  | inr gone ↦ rw gone (filter-AbsentKey key p rows more)
]

filter-Distinct :
    (p : IdempotencyKey → Bool) (rows : List IdempotencyKey)
    → Distinct rows
    → Distinct (filter p rows)
filter-Distinct p [] d = tt
filter-Distinct p (row ∷ rows) (a, d) = elim (Bool-cases (p row)) [
  | inl kept ↦ rw kept (filter-AbsentKey row.key p rows a, filter-Distinct p rows d)
  | inr gone ↦ rw gone (filter-Distinct p rows d)
]

-- Writes of keys: a response with its lifetime in hours, or a cleanup.
pub data KeyWrite : Type 0 where
  put : ℕ → String → String → ℕ → KeyWrite
  cleanup : ℕ → KeyWrite

abbrev pub written_at : KeyWrite → ℕ
written_at (KeyWrite.put now key response_json ttl_hours) = now
written_at (KeyWrite.cleanup now) = now

abbrev pub write_key : KeyWrite → Storage → Storage
write_key (KeyWrite.put now key response_json ttl_hours) st =
    set_idempotent_response now key response_json ttl_hours st
write_key (KeyWrite.cleanup now) st = (cleanup_expired_idempotency_keys now st).1

abbrev pub write_keys : List KeyWrite → Storage → Storage
write_keys [] st = st
write_keys (write ∷ writes) st = write_keys writes (write_key write st)

-- What is promised at a time: the last response put for the key, within its lifetime.
abbrev pub promised : String → ℕ → List KeyWrite → Option String → Option String
promised key now [] current = current
promised key now (KeyWrite.cleanup at ∷ writes) current = promised key now writes current
promised key now (KeyWrite.put at own response_json ttl_hours ∷ writes) current =
    promised key now writes (
      if own == key
      then (if ltb now (at + ttl_hours * 3600) then some response_json else none)
      else current)

write_key-promised :
    (key : String) (now : ℕ) (write : KeyWrite) (st : Storage)
    → Distinct st.idempotency_keys
    → written_at write ≤ now
    → Distinct (write_key write st).idempotency_keys
      × (get_idempotent_response now key (write_key write st)
          ≡ promised key now (write ∷ []) (get_idempotent_response now key st))
unfolding get_idempotent_response set_idempotent_response cleanup_expired_idempotency_keys
write_key-promised key now (KeyWrite.cleanup at) st d h = (
  filter-Distinct (lives_on at) st.idempotency_keys d,
  first-cleanup at now key st.idempotency_keys h,
)
write_key-promised key now (KeyWrite.put at own response_json ttl_hours) st d h =
    let row : IdempotencyKey = record {
      key = own;
      response_json = response_json;
      created_at = at;
      expires_at = at + ttl_hours * 3600;
    } in
    (upsert-Distinct row st.idempotency_keys d, reads-upsert key row now st.idempotency_keys d)

promised-first :
    (key : String) (now : ℕ) (write : KeyWrite) (writes : List KeyWrite) (current : Option String)
    → promised key now (write ∷ writes) current
      ≡ promised key now writes (promised key now (write ∷ []) current)
promised-first key now (KeyWrite.cleanup at) writes current = refl
promised-first key now (KeyWrite.put at own response_json ttl_hours) writes current = refl

write_keys-promised :
    (key : String) (now : ℕ) (writes : List KeyWrite) (st : Storage)
    → Distinct st.idempotency_keys
    → All (λ write. written_at write ≤ now) writes
    → get_idempotent_response now key (write_keys writes st)
      ≡ promised key now writes (get_idempotent_response now key st)
write_keys-promised key now [] st d h = refl
write_keys-promised key now (write ∷ writes) st d (h, more) =
    let (d', first) = write_key-promised key now write st d h in
    write_keys-promised key now writes (write_key write st) d' more
    ∙ ap (promised key now writes) first
    ∙ sym (promised-first key now write writes (get_idempotent_response now key st))

-- From empty tables, after any writes of keys up to a time, a get at that time returns the last
-- response that was put for the key, if its lifetime has not ended, and nothing otherwise; cleanups
-- in between make no difference.
pub keys-promised :
    (key : String) (now : ℕ) (writes : List KeyWrite)
    → All (λ write. written_at write ≤ now) writes
    → get_idempotent_response now key (write_keys writes created) ≡ promised key now writes none
unfolding get_idempotent_response
keys-promised key now writes h = write_keys-promised key now writes created tt h
