-- ===== src/Backpressure/Examples.antt =====
-- Two permits and three requests.
use reinforce_spec.Prelude.{◌≤◌, ◌≡◌, ◌↔◌, false, true, List, [], ◌∷◌, refl}
use reinforce_spec.Backpressure.{overloaded, dispatch}
use reinforce_spec.Backpressure.InFlight.{Event, arrives, run, step, idle, overloaded_iff}

abbrev events : List Event
events = arrives false ∷ arrives true ∷ arrives false ∷ []

two_in_flight : (run (idle 2) events).in_flight ≡ 2
unfolding run step dispatch
two_in_flight = refl

overloaded_iff_example :
    let s = run (idle 2) events in
    (s.in_flight ≤ 2) × (((dispatch false s.middleware).0 ≡ overloaded) ↔ (s.in_flight ≡ 2))
overloaded_iff_example = overloaded_iff 2 events
