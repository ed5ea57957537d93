-- ===== src/Backpressure.antt =====
-- `BackpressureMiddleware` of reinforce_spec/server/middleware/backpressure.py. The semaphore is its
-- value: while that is positive `async with` takes it without suspending, so a request that arrives
-- and one that ends are one step each.
pub mod InFlight
mod Examples
use reinforce_spec.Prelude.{ℕ, zero, suc, ◌+◌, ◌-◌, Bool, true, false, nat_beq, if◌then◌else◌}

pub record Middleware : Type 0 where
  pub value : ℕ
  pub max_concurrent : ℕ

abbrev pub init : ℕ → Middleware
init max_concurrent = record { value = max_concurrent; max_concurrent = max_concurrent }

-- What becomes of a request.
pub data Answer : Type 0 where
  -- a health request is passed on beside the semaphore
  bypasses : Answer
  -- 503
  overloaded : Answer
  -- passed on with a permit, which it holds until it ends
  admitted : Answer

-- `dispatch` up to `call_next`.
unfoldable pub dispatch : Bool → Middleware → Answer × Middleware
dispatch is_health m =
    if is_health
    then (bypasses, m)
    else (if nat_beq m.value 0
        then (overloaded, m)
        else (admitted, record m { value = m.value - 1 }))

-- The end of `async with`, however `call_next` ended.
unfoldable pub release : Middleware → Middleware
release m = record m { value = m.value + 1 }
