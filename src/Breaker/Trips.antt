-- ===== src/Breaker/Trips.antt =====
-- What an open breaker lets through, and how it closes again.
use reinforce_spec.Prelude.{
  ℕ, ◌+◌, ◌-◌, ◌≤◌, ◌<◌, ◌≡◌, refl, ◌≢◌, ap, ◌∙◌, List, [], ◌∷◌, map, All, arith, ltb,
  if◌then◌else◌,
}
use reinforce_spec.Breaker.{
  CircuitState, CircuitBreaker, checks, step, check, pass, rejected, record_failure, record_success,
}
use reinforce_spec.Breaker.Invariant.{run}

abbrev pub deadline : CircuitBreaker → ℕ
deadline cb = cb.last_failure_time + cb.cooldown_seconds

-- `check` on an open breaker, on both sides of the deadline.
pub check-opened :
    (now later : ℕ) (cb : CircuitBreaker)
    → cb.state ≡ CircuitState.opened
    → check now later cb ≡ (
        if ltb now (deadline cb)
        then (rejected (deadline cb - later), cb)
        else (pass, record cb { state = CircuitState.half_open }))
unfolding check
check-opened now later cb e = ground arith

pub check-before_deadline :
    (now later : ℕ) (cb : CircuitBreaker)
    → cb.state ≡ CircuitState.opened
    → now < deadline cb
    → check now later cb ≡ (rejected (deadline cb - later), cb)
check-before_deadline now later cb e h = ground (arith, check-opened now later cb e)

-- A breaker that is not open lets everything through and does not change.
pub check-not_opened :
    (now later : ℕ) (cb : CircuitBreaker)
    → cb.state ≢ CircuitState.opened
    → check now later cb ≡ (pass, cb)
unfolding check
check-not_opened now later cb h = ground arith

step-checks_opened :
    (now : ℕ) (cb : CircuitBreaker)
    → cb.state ≡ CircuitState.opened
    → now < deadline cb
    → step cb (checks now) ≡ cb
unfolding step
step-checks_opened now cb e h = ground (arith, check-opened now now cb e)

run-checks_opened :
    (cb : CircuitBreaker) (times : List ℕ)
    → cb.state ≡ CircuitState.opened
    → All (λ now. now < deadline cb) times
    → run cb (map checks times) ≡ cb
run-checks_opened cb [] e h = refl
run-checks_opened cb (now ∷ times) e (h, hs) =
    ap (λ c. run c (map checks times)) (step-checks_opened now cb e h)
    ∙ run-checks_opened cb times e hs

failure-trips :
    (now : ℕ) (cb : CircuitBreaker)
    → cb.threshold ≤ cb.failure_count + 1
    → (record_failure now cb).state ≡ CircuitState.opened
unfolding record_failure
failure-trips now cb h = ground arith

-- The failure that reaches the threshold at time `at` blocks the upstream for the whole cooldown:
-- after any checks at earlier times than `at + cooldown_seconds`, one more check at such a time is
-- rejected with the time left until then and changes nothing.
pub trip-rejects :
    (at : ℕ) (cb : CircuitBreaker) (times : List ℕ) (now : ℕ)
    → cb.threshold ≤ cb.failure_count + 1
    → All (λ t. t < at + cb.cooldown_seconds) times
    → now < at + cb.cooldown_seconds
    → check now now (run (record_failure at cb) (map checks times))
      ≡ (rejected (at + cb.cooldown_seconds - now), record_failure at cb)
unfolding record_failure
trip-rejects at cb times now full early h =
    let e = failure-trips at cb full in
    rw (run-checks_opened (record_failure at cb) times e early)
      (ground (arith, check-opened now now (record_failure at cb) e))

-- From the end of the cooldown on a check passes and makes the breaker half-open. There one
-- success closes it with no failure counted, and one failure opens it for another whole cooldown.
pub trip-recovers :
    (at : ℕ) (cb : CircuitBreaker) (now later : ℕ)
    → cb.threshold ≤ cb.failure_count + 1
    → at + cb.cooldown_seconds ≤ now
    → let probe = (check now now (record_failure at cb)).1 in
      ((check now now (record_failure at cb)).0 ≡ pass)
      × (probe.state ≡ CircuitState.half_open)
      × ((record_success probe).state ≡ CircuitState.closed)
      × ((record_success probe).failure_count ≡ 0)
      × ((record_failure later probe).state ≡ CircuitState.opened)
      × (deadline (record_failure later probe) ≡ later + cb.cooldown_seconds)
unfolding record_success record_failure check
trip-recovers at cb now later full h = ground arith
