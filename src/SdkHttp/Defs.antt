-- ===== src/SdkHttp/Defs.antt =====
-- httpx is what `send` does: an outcome for each attempt. `jitter` is the draw of each attempt, and
-- delays are natural numbers of one fixed unit.
use reinforce_spec.Prelude.{
  ℕ, zero, suc, ◌+◌, ◌*◌, min, Bool, true, false, ◌&&◌, ◌||◌, List, [], ◌∷◌, Option, none, some,
  nat_beq, ltb, leb, if◌then◌else◌,
}

-- The subclasses of ReinforceSpecError. A ServerError has a status code of its own.
pub data SdkError : Type 0 where
  validation_error authentication_error authorization_error not_found_error conflict_error :
      SdkError
  payload_too_large_error network_error timeout_error reinforce_spec_error : SdkError
  rate_limit_error service_unavailable_error : Option ℕ → SdkError
  server_error : ℕ → SdkError

-- A numeric header as `float` or `int` reads it.
pub data Header : Type 0 where
  absent malformed : Header
  reading : ℕ → Header

-- The details in the body of an error: an object or nothing, with its `retry_after`, or something
-- else that is not empty.
pub data Details : Type 0 where
  fields : Option ℕ → Details
  no_object : Details

-- A response, with what `response.json()` gives, the details in its body, and the headers that are
-- read of a 429.
pub record Response {ℓ} (J : Type ℓ) : Type ℓ where
  pub status_code : ℕ
  pub json : Option J
  pub details : Details
  pub retry_after : Header
  pub limit : Header
  pub remaining : Header
  pub reset : Header

-- What `client.request` does.
pub data Sent {ℓ} (J : Type ℓ) : Type ℓ where
  responds : Response J → Sent J
  times_out cannot_connect fails_otherwise : Sent J

-- How an attempt ends: with a value, an error of the SDK, or another exception.
pub data Handled {ℓ} (J : Type ℓ) : Type ℓ where
  returns : J → Handled J
  raises : SdkError → Handled J
  breaks : Handled J

-- `exception_from_response`: the class of the code, made without a status code.
unfoldable pub exception_from_response : ℕ → Option ℕ → SdkError
exception_from_response code retry_after =
    if nat_beq code 400
    then validation_error
    else (if nat_beq code 401
        then authentication_error
        else (if nat_beq code 403
            then authorization_error
            else (if nat_beq code 404
                then not_found_error
                else (if nat_beq code 409
                    then conflict_error
                    else (if nat_beq code 413
                        then payload_too_large_error
                        else (if nat_beq code 429
                            then rate_limit_error retry_after
                            else (if nat_beq code 500
                                then server_error 500
                                else (if nat_beq code 502
                                    then server_error 500
                                    else (if nat_beq code 503
                                        then service_unavailable_error retry_after
                                        else (if nat_beq code 504
                                            then server_error 500
                                            else reinforce_spec_error))))))))))

abbrev pub is_malformed : Header → Bool
is_malformed malformed = true
is_malformed _ = false

-- `details["retry_after"]` once the header is read.
abbrev pub with_header : Header → Details → Details
with_header (reading n) (fields from_body) = fields (some n)
with_header absent (fields from_body) = fields from_body
with_header malformed (fields from_body) = fields from_body
with_header header no_object = no_object

abbrev pub success : ℕ → Bool
success code = leb 200 code && ltb code 300

module _ {ℓ} {J : Type ℓ} where
  abbrev pub parsed : Option J → Handled J
  parsed none = breaks
  parsed (some value) = returns value

  -- `details.get` of what is no object raises an AttributeError.
  unfoldable pub raised : ℕ → Details → Handled J
  raised code (fields after) = raises (exception_from_response code after)
  raised code no_object =
      if nat_beq code 429 || nat_beq code 503
      then breaks
      else raises (exception_from_response code none)

  unfoldable pub limited : Response J → Handled J
  unfolding raised
  limited r =
      if is_malformed r.retry_after
        || (is_malformed r.limit || (is_malformed r.remaining || is_malformed r.reset))
      then breaks
      else raised 429 (with_header r.retry_after r.details)

  -- `empty` is the `{}` of a 204.
  unfoldable pub handle_response : J → Response J → Handled J
  unfolding exception_from_response raised limited
  handle_response empty r =
      if success r.status_code
      then (if nat_beq r.status_code 204 then returns empty else parsed r.json)
      else (if nat_beq r.status_code 429 then limited r else raised r.status_code r.details)

-- `_should_retry` of an error of the SDK: none of them is an exception of httpx.
unfoldable pub should_retry : SdkError → Bool
should_retry (server_error code) = nat_beq code 502 || (nat_beq code 503 || nat_beq code 504)
should_retry (rate_limit_error retry_after) = true
should_retry _ = false

pub record HttpClient : Type 0 where
  pub max_retries : ℕ
  pub retry_delay : ℕ
  pub retry_max_delay : ℕ

abbrev pub power : ℕ → ℕ
power zero = 1
power (suc n) = 2 * power n

unfoldable pub backoff : HttpClient → ℕ → ℕ → ℕ
backoff c jitter attempt = min (c.retry_delay * power attempt) c.retry_max_delay + jitter

-- A retry-after of 0 counts as none.
unfoldable pub get_retry_delay : HttpClient → ℕ → ℕ → SdkError → ℕ
unfolding backoff
get_retry_delay c jitter attempt (rate_limit_error (some (suc n))) = suc n
get_retry_delay c jitter attempt _ = backoff c jitter attempt

-- What the `except` clauses make of an attempt.
pub data Caught {ℓ} (J : Type ℓ) : Type ℓ where
  done : J → Caught J
  rethrown : SdkError → Caught J
  last_exception : SdkError → Caught J

module _ {ℓ} {J : Type ℓ} where
  unfoldable pub caught : Handled J → Caught J
  caught (returns value) = done value
  caught (raises (server_error code)) = last_exception (server_error code)
  caught (raises (rate_limit_error after)) = last_exception (rate_limit_error after)
  caught (raises e) = rethrown e
  caught breaks = last_exception network_error

  unfoldable pub attempted : J → Sent J → Caught J
  unfolding caught handle_response
  attempted empty (responds r) = caught (handle_response empty r)
  attempted empty times_out = last_exception timeout_error
  attempted empty cannot_connect = last_exception network_error
  attempted empty fails_otherwise = last_exception network_error

pub data Result {ℓ} (J : Type ℓ) : Type ℓ where
  value : J → Result J
  error : SdkError → Result J

module _ {ℓ} {J : Type ℓ} where
  -- The last attempt that is allowed.
  abbrev pub ended : Caught J → Result J × List ℕ
  ended (done v) = (value v, [])
  ended (rethrown e) = (error e, [])
  ended (last_exception e) = (error e, [])

  -- An attempt after which `rest` is what the loop goes on to do.
  unfoldable pub followed : HttpClient → ℕ → ℕ → Caught J → Result J × List ℕ → Result J × List ℕ
  followed c jitter attempt (done v) rest = (value v, [])
  followed c jitter attempt (rethrown e) rest = (error e, [])
  followed c jitter attempt (last_exception e) (result, sleeps) =
      if should_retry e
      then (result, get_retry_delay c jitter attempt e ∷ sleeps)
      else (error e, [])

module _ {ℓ} {J : Type ℓ} (empty : J) (c : HttpClient) (send : ℕ → Sent J) (jitter : ℕ → ℕ) where
  -- The loop of `request` with `left` more attempts allowed: the result and the sleeps.
  unfoldable pub attempt_from : ℕ → ℕ → Result J × List ℕ
  unfolding attempted followed
  attempt_from zero attempt = ended (attempted empty (send attempt))
  attempt_from (suc left) attempt =
      let rest = attempt_from left (attempt + 1) in
      followed c (jitter attempt) attempt (attempted empty (send attempt)) rest

  unfoldable pub request : Result J × List ℕ
  unfolding attempt_from
  request = attempt_from c.max_retries 0
