-- ===== src/RateLimit/Examples.antt =====
-- Two requests a minute, and three that come at once.
use reinforce_spec.Prelude.{ℕ, ◌≤◌, ◌≡◌, refl, String, List, [], ◌∷◌, arith}
use reinforce_spec.Prelude.Dict.{lookup, insert}
use reinforce_spec.RateLimit.Defs.{init, recent, dispatch, count_request}
use reinforce_spec.RateLimit.Sliding.{Orderly, step, run, watched, within_minute, minute_bound}

abbrev requests : List (ℕ × String)
requests = (1, "a") ∷ (2, "a") ∷ (3, "a") ∷ []

orderly : Orderly "a" 0 (watched 2 100 10) requests
unfolding step init lookup insert recent dispatch count_request
orderly =
    (omega arith, (omega arith, (omega arith, (omega arith, (omega arith, (omega arith, tt))))))

third_is_rejected : (run "a" (watched 2 100 10) requests).passed ≡ 1 ∷ 2 ∷ []
unfolding run step init lookup insert recent dispatch count_request
third_is_rejected = refl

minute_bound_example : within_minute 3 (run "a" (watched 2 100 10) requests).passed ≤ 2
minute_bound_example = minute_bound 2 100 10 "a" requests orderly
