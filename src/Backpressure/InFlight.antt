-- ===== src/Backpressure/InFlight.antt =====
-- How many requests are inside the application.
use reinforce_spec.Prelude.{
  ℕ, ◌+◌, ◌-◌, ◌≤◌, ◌≡◌, ◌↔◌, Bool, false, List, [], ◌∷◌, nat_beq, if◌then◌else◌, arith,
}
use reinforce_spec.Backpressure.{
  Middleware, init, Answer, admitted, overloaded, bypasses, dispatch, release,
}

-- The middleware, and the requests that hold a permit.
pub record System : Type 0 where
  pub middleware : Middleware
  pub in_flight : ℕ

pub data Event : Type 0 where
  arrives : Bool → Event
  ends : Event

abbrev pub entered : Answer → ℕ → ℕ
entered admitted n = n + 1
entered overloaded n = n
entered bypasses n = n

-- No request ends when none holds a permit.
unfoldable pub step : System → Event → System
step s (arrives is_health) =
    let (answer, m) = dispatch is_health s.middleware in
    record { middleware = m; in_flight = entered answer s.in_flight }
step s ends =
    if nat_beq s.in_flight 0
    then s
    else record { middleware = release s.middleware; in_flight = s.in_flight - 1 }

unfoldable pub run : System → List Event → System
unfolding step
run s [] = s
run s (e ∷ es) = run (step s e) es

record Balanced (most : ℕ) (s : System) : Type 0 where
  permits : s.middleware.value + s.in_flight ≡ most

step-Balanced : (most : ℕ) (s : System) (e : Event) → Balanced most s → Balanced most (step s e)
unfolding step dispatch release
step-Balanced most s (arrives is_health) b = record { permits = ground (arith, b.permits) }
step-Balanced most s ends b = record { permits = ground (arith, b.permits) }

run-Balanced :
    (most : ℕ) (s : System) (es : List Event) → Balanced most s → Balanced most (run s es)
unfolding run
run-Balanced most s [] b = b
run-Balanced most s (e ∷ es) b = run-Balanced most (step s e) es (step-Balanced most s e b)

abbrev pub idle : ℕ → System
idle max_concurrent = record { middleware = init max_concurrent; in_flight = 0 }

-- However requests arrive and end, at most `max_concurrent` hold a permit, and the next request that
-- is not for the health endpoints is answered with 503 exactly when that many do.
pub overloaded_iff :
    (max_concurrent : ℕ) (es : List Event)
    → let s = run (idle max_concurrent) es in
      (s.in_flight ≤ max_concurrent)
      × (((dispatch false s.middleware).0 ≡ overloaded) ↔ (s.in_flight ≡ max_concurrent))
unfolding dispatch
overloaded_iff most es =
    let s = run (idle most) es in
    let b = (run-Balanced most (idle most) es (record { permits = omega arith })).permits in
    (omega (arith, b), (λ e. ground (arith, b, e), λ e. ground (arith, b, e)))
