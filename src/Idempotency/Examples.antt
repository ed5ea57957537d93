-- ===== src/Idempotency/Examples.antt =====
-- One key, a first request that succeeds and a retry.
use reinforce_spec.Prelude.{◌≤◌, ◌≡◌, refl, true, String, [], ◌∷◌, Option, some, arith, string_eq}
use reinforce_spec.Idempotency.Defs.{is_held, check, init, acquire}
use reinforce_spec.Prelude.Dict.{lookup, insert}
use reinforce_spec.Idempotency.Middleware.{
  Request, Response, Saved, json_response, returned, replayed, begin, begin_key,
}
use reinforce_spec.Idempotency.AtMostOnce.{
  System, arrives, ends, step, run, start, count, held_count, at_most_one_runs,
}
use reinforce_spec.Idempotency.Replay.{AsJson, success-replays}

abbrev loads_text : String → Option String
loads_text body = some body

abbrev post : Request
post = record { method = "POST"; key = some "k1" }

abbrev ok : Response
ok = record { status_code = 200; body = "[1]" }

abbrev before : System String
before = record {
  store = record { ttl = 60; memory = []; locks = ("k1", true) ∷ [] };
  running = "k1" ∷ [];
}

at_most_one_runs_example :
    let sys = run loads_text (start 60) (arrives 1 post ∷ arrives 2 post ∷ []) in
    (count "k1" sys.running ≤ 1)
    × (count "k1" sys.running ≡ held_count (is_held (lookup "k1" sys.store.locks)))
at_most_one_runs_example =
    at_most_one_runs loads_text 60 (arrives 1 post ∷ arrives 2 post ∷ []) "k1"

reached : run loads_text (start 60) (arrives 1 post ∷ []) ≡ before
unfolding run step begin begin_key check lookup init acquire insert
reached = refl

held_once :
    (k : String) → count k before.running ≡ held_count (is_held (lookup k before.store.locks))
unfolding lookup
held_once k = ground (arith, string_eq.same_iff "k1" k)

success-replays_example :
    let after =
      (run loads_text
        (step loads_text before (ends 3 3 "k1" (returned ok)))
        (arrives 4 post ∷ [])).store in
    (saved : Saved String) × (begin 5 post after ≡ (replayed saved, after))
    × AsJson some 200 (some "[1]") (json_response some saved)
success-replays_example =
    success-replays loads_text some before "k1" 3 3 ok (some "[1]") (arrives 4 post ∷ []) 5 post
      held_once refl refl refl (omega arith) (omega arith, tt) (omega arith) refl refl
