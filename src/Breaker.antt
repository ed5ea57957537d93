-- ===== src/Breaker.antt =====
-- `CircuitBreaker` of reinforce_spec/_internal/_client.py. A reading of `time.monotonic()` is an
-- argument; seconds are natural numbers of one fixed unit. The lock of the two `record_` methods
-- makes each of them one step, and nothing else awaits.
pub mod Invariant
pub mod Trips
mod Examples
use reinforce_spec.Prelude.{ℕ, suc, ◌+◌, ◌-◌, Bool, true, false, leb, if◌then◌else◌}

-- OPEN is `opened`, since `open` is a reserved word.
pub data CircuitState : Type 0 where
  closed opened half_open : CircuitState

pub record CircuitBreaker : Type 0 where
  pub threshold : ℕ
  pub cooldown_seconds : ℕ
  pub state : CircuitState
  pub failure_count : ℕ
  pub last_failure_time : ℕ

abbrev pub init : ℕ → ℕ → CircuitBreaker
init threshold cooldown = record {
  threshold = threshold;
  cooldown_seconds = cooldown;
  state = CircuitState.closed;
  failure_count = 0;
  last_failure_time = 0;
}

-- `now - last >= cooldown`, without the subtraction.
abbrev pub cooled : ℕ → CircuitBreaker → Bool
cooled now cb = leb (cb.last_failure_time + cb.cooldown_seconds) now

open_at : CircuitState → ℕ → CircuitBreaker → Bool × CircuitBreaker
open_at CircuitState.opened now cb =
    if cooled now cb then (false, record cb { state = CircuitState.half_open }) else (true, cb)
open_at CircuitState.closed now cb = (false, cb)
open_at CircuitState.half_open now cb = (false, cb)

-- The property writes: once the cooldown is over an open breaker becomes half-open.
unfoldable pub is_open : ℕ → CircuitBreaker → Bool × CircuitBreaker
unfolding open_at
is_open now cb = open_at cb.state now cb

remaining_at : CircuitState → ℕ → CircuitBreaker → ℕ
remaining_at CircuitState.opened now cb = cb.last_failure_time + cb.cooldown_seconds - now
remaining_at CircuitState.closed now cb = 0
remaining_at CircuitState.half_open now cb = 0

-- `max(0.0, cooldown - (now - last))`.
unfoldable pub cooldown_remaining : ℕ → CircuitBreaker → ℕ
unfolding remaining_at
cooldown_remaining now cb = remaining_at cb.state now cb

unfoldable pub record_success : CircuitBreaker → CircuitBreaker
record_success cb = record cb { failure_count = 0; state = CircuitState.closed }

unfoldable pub record_failure : ℕ → CircuitBreaker → CircuitBreaker
record_failure now cb =
    let count = cb.failure_count + 1 in
    record cb {
      failure_count = count;
      last_failure_time = now;
      state = (if leb cb.threshold count then CircuitState.opened else cb.state);
    }

-- What `check` does: it returns, or raises `CircuitBreakerOpenError(cooldown_remaining)`.
pub data Verdict : Type 0 where
  pass : Verdict
  rejected : ℕ → Verdict

-- `check` reads the clock once for the test and once more for the message.
unfoldable pub check : ℕ → ℕ → CircuitBreaker → Verdict × CircuitBreaker
unfolding is_open cooldown_remaining
check now later cb =
    let (is, cb') = is_open now cb in
    if is then (rejected (cooldown_remaining later cb'), cb') else (pass, cb')

-- One call of a method by one of the tasks that share the breaker.
pub data Event : Type 0 where
  checks : ℕ → Event
  succeeds : Event
  fails : ℕ → Event

unfoldable pub step : CircuitBreaker → Event → CircuitBreaker
unfolding check record_success record_failure
step cb (checks now) = (check now now cb).1
step cb succeeds = record_success cb
step cb (fails now) = record_failure now cb
