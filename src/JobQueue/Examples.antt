-- ===== src/JobQueue/Examples.antt =====
-- Two jobs for one worker, and a queue that is started again while it stops.
use reinforce_spec.Prelude.{ℕ, ◌≡◌, ◌≤◌, refl, String, List, [], ◌∷◌, false, length}
use reinforce_spec.Prelude.Dict.{insert}
use reinforce_spec.JobQueue.Defs.{
  returns, init, start, enqueue, test_loop, take_job, end_job, begin_stop, end_stop, ended,
}
use reinforce_spec.JobQueue.Tasks.{jobs_of}
use reinforce_spec.JobQueue.Runs.{
  Op, starts, submits, tests, takes, ends, begins_stop, ends_stop, run, step,
}
use reinforce_spec.JobQueue.Kept.{Ordered}
use reinforce_spec.JobQueue.Order.{history-Ordered}
use reinforce_spec.JobQueue.Limit.{Orderly, history-Bounded}

abbrev ops : List (Op String)
ops =
    starts
    ∷ submits 1 "j1" "train"
    ∷ submits 2 "j2" "train"
    ∷ tests 0
    ∷ takes 3 0
    ∷ takes 4 0
    ∷ ends 5 0 (returns "done")
    ∷ tests 0
    ∷ takes 6 0
    ∷ submits 7 "j3" "train"
    ∷ []

third_waits : (run (init 1) ops).queue ≡ 2 ∷ []
unfolding run step init start enqueue test_loop take_job end_job ended insert
third_waits = refl

history-Ordered_example : (next : ℕ) × Ordered next (run (init 1) ops)
history-Ordered_example = history-Ordered 1 ops

orderly : Orderly (init 1) ops
unfolding init
orderly = (refl, (tt, (tt, (tt, (tt, (tt, (tt, (tt, (tt, (tt, tt))))))))))

history-Bounded_example :
    (length (jobs_of (run (init 1) ops).tasks) ≤ 1)
    × ((run (init 1) ops).is_running ≡ false
        → (run (init 1) ops).stopping ≡ []
        → (run (init 1) ops).tasks ≡ [])
history-Bounded_example = history-Bounded 1 ops orderly

-- A start while a stop waits: its worker is forgotten, and with the next start two jobs run.
abbrev disorderly : List (Op String)
disorderly =
    starts
    ∷ begins_stop
    ∷ starts
    ∷ tests 0
    ∷ ends_stop 0
    ∷ tests 1
    ∷ submits 1 "j1" "train"
    ∷ submits 2 "j2" "train"
    ∷ takes 3 1
    ∷ begins_stop
    ∷ ends_stop 0
    ∷ starts
    ∷ tests 2
    ∷ takes 4 2
    ∷ []

two_run : jobs_of (run (init 1) disorderly).tasks ≡ 0 ∷ 1 ∷ []
unfolding run step init start enqueue test_loop take_job end_job begin_stop end_stop ended insert
two_run = refl
