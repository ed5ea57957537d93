-- ===== src/Breaker/Examples.antt =====
-- Runs of the circuit breaker, and its theorems at concrete inputs.
use reinforce_spec.Prelude.{◌<◌, ◌≡◌, ◌↔◌, refl, List, [], ◌∷◌, map, arith}
use reinforce_spec.Breaker.{
  CircuitState, CircuitBreaker, Event, checks, succeeds, fails, init, step, check, pass, rejected,
  record_failure, record_success,
}
use reinforce_spec.Breaker.Invariant.{
  IsValid, run, run-IsValid, init-IsValid, closed_iff-fails_since_success, fails_since_success,
}
use reinforce_spec.Breaker.Trips.{trip-rejects, trip-recovers, deadline}

abbrev history : List Event
history = fails 1 ∷ succeeds ∷ fails 5 ∷ checks 6 ∷ fails 7 ∷ []

abbrev shaky : CircuitBreaker
shaky = record (init 2 60) { failure_count = 1; last_failure_time = 5 }

history_trips : (run (init 2 60) history).state ≡ CircuitState.opened
unfolding step
history_trips = refl

run-IsValid_example : IsValid (run (init 2 60) history)
run-IsValid_example = run-IsValid (init 2 60) history (init-IsValid 2 60 (omega arith))

closed_iff_example :
    ((run (init 2 60) history).state ≡ CircuitState.closed) ↔ (fails_since_success history < 2)
closed_iff_example = closed_iff-fails_since_success 2 60 history (omega arith)

trip-rejects_example :
    check 20 20 (run (record_failure 7 shaky) (map checks (8 ∷ 9 ∷ [])))
    ≡ (rejected 47, record_failure 7 shaky)
trip-rejects_example =
    trip-rejects 7 shaky (8 ∷ 9 ∷ []) 20 (omega arith) (omega arith) (omega arith)

trip-recovers_example :
    let probe = (check 67 67 (record_failure 7 shaky)).1 in
    ((check 67 67 (record_failure 7 shaky)).0 ≡ pass)
    × (probe.state ≡ CircuitState.half_open)
    × ((record_success probe).state ≡ CircuitState.closed)
    × ((record_success probe).failure_count ≡ 0)
    × ((record_failure 70 probe).state ≡ CircuitState.opened)
    × (deadline (record_failure 70 probe) ≡ 130)
trip-recovers_example = trip-recovers 7 shaky 67 70 (omega arith) (omega arith)
