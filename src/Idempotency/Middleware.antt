-- ===== src/Idempotency/Middleware.antt =====
-- `dispatch` with a store set, cut in two: `begin` runs up to `call_next`, and `finish` from where
-- the response and its body are there. With the in-memory store the calls of the store do not
-- suspend, so each of the two is one step; the body is read while the lock is held.
use reinforce_spec.Prelude.{
  ℕ, Bool, ◌&&◌, ◌||◌, String, Option, none, some, ltb, leb, if◌then◌else◌, ◌==◌, string_eq,
}
use reinforce_spec.Idempotency.Defs.{Store, check, save, acquire, release}

pub record Request : Type 0 where
  pub method : String
  pub key : Option String

pub record Response : Type 0 where
  pub status_code : ℕ
  pub body : String

-- What the store keeps of a response; `J` is the type of JSON values.
pub record Saved {ℓ} (J : Type ℓ) : Type ℓ where
  pub status_code : ℕ
  pub body : Option J

-- What becomes of a request before `call_next`.
pub data Begun {ℓ} (J : Type ℓ) : Type ℓ where
  -- forwarded outside the store's protection
  forwarded : Begun J
  -- answered from the store
  replayed : Saved J → Begun J
  -- IdempotencyConflictError
  conflicts : Begun J
  -- forwarded while it holds the lock of the key
  started : String → Begun J

abbrev pub is_mutating : String → Bool
is_mutating method = method == "POST" || (method == "PUT" || method == "PATCH")

-- The header, where it is there and not empty.
abbrev pub key_of : Option String → Option String
key_of none = none
key_of (some key) = if key == "" then none else some key

module _ {ℓ} {J : Type ℓ} where
  unfoldable pub claim :
      String → Store (Saved J) → Option (Store (Saved J)) → Begun J × Store (Saved J)
  claim key s none = (conflicts, s)
  claim key s (some s') = (started key, s')

  unfoldable pub answer : String → Option (Saved J) × Store (Saved J) → Begun J × Store (Saved J)
  unfolding claim
  answer key (some cached, s) = (replayed cached, s)
  answer key (none, s) = claim key s (acquire key s)

  unfoldable pub begin_key : ℕ → String → Store (Saved J) → Begun J × Store (Saved J)
  unfolding answer
  begin_key now key s = answer key (check now key s)

  unfoldable pub begin : ℕ → Request → Store (Saved J) → Begun J × Store (Saved J)
  begin now request s =
      if is_mutating request.method
      then (elim (key_of request.key) [ none ↦ (forwarded, s) | some key ↦ begin_key now key s ])
      else (forwarded, s)

-- What `call_next` did.
pub data Outcome : Type 0 where
  returned : Response → Outcome
  raised : Outcome

-- What the client gets in the end; `failed` is an exception of `call_next` or of `json.loads`.
pub data Reply : Type 0 where
  replied : Response → Reply
  failed : Reply

abbrev pub is_success : ℕ → Bool
is_success status = leb 200 status && ltb status 300

-- The JSONResponse of a saved record. `dumps` is its rendering of a JSON value, where none is the
-- ValueError for a number that is not finite; without a body the content is None.
module _ {ℓ} {J : Type ℓ} (dumps : J → Option String) where
  abbrev pub content_of : Option J → Option String
  content_of none = some "null"
  content_of (some value) = dumps value

  abbrev pub rendered : ℕ → Option String → Reply
  rendered status none = failed
  rendered status (some body) = replied (record { status_code = status; body = body })

  unfoldable pub json_response : Saved J → Reply
  json_response saved = rendered saved.status_code (content_of saved.body)

-- `json.loads` belongs to Python's library: `none` is its ValueError.
module _ {ℓ} {J : Type ℓ} (loads : String → Option J) where
  abbrev pub saved_body : String → Option (Option J)
  saved_body body =
      if body == ""
      then some none
      else (elim (loads body) [ none ↦ none | some value ↦ some (some value) ])

  unfoldable pub store_response :
      ℕ → ℕ → String → Response → Option (Option J) → Store (Saved J) → Reply × Store (Saved J)
  store_response now later key r none s = (failed, s)
  store_response now later key r (some body) s =
      (replied r, save now later key (record { status_code = r.status_code; body = body }) s)

  -- The `try` after `call_next`.
  unfoldable pub settle : ℕ → ℕ → String → Outcome → Store (Saved J) → Reply × Store (Saved J)
  unfolding store_response
  settle now later key raised s = (failed, s)
  settle now later key (returned r) s =
      if is_success r.status_code
      then store_response now later key r (saved_body r.body) s
      else (replied r, s)

  -- With the `finally`: the lock is released however the request ends.
  unfoldable pub finish : ℕ → ℕ → String → Outcome → Store (Saved J) → Reply × Store (Saved J)
  unfolding settle
  finish now later key outcome s =
      let (reply, s') = settle now later key outcome s in (reply, release key s')
