-- ===== src/JobQueue/Limit.antt =====
-- How many jobs run at a time.
use reinforce_spec.Prelude.{
  if-holds, ℕ, zero, suc, ◌≤◌, ◌≡◌, refl, sym, ap, true, false, List, [], ◌∷◌, ◌++◌, Option, none,
  some, length, get_elem?, arith, length-append, All, subst,
}
use mathlib.Core.Option.{none-ne-some, some_inj}
use reinforce_spec.Prelude.Counting.{All-append, All-weaken}
use reinforce_spec.JobQueue.Defs.{
  JobQueue, Worker, init, start, enqueue, took, tested, timed_out, done, cut, task_of, new_workers,
  cancel_listed, is_alive, remove_at, test_loop, time_out, take_job, end_job, interrupt, begin_stop,
  enqueue, gathered, end_stop, places, mentions,
}
use reinforce_spec.JobQueue.Tasks.{
  cancel_listed-All, new_workers-All, length-cancel_listed, length-new_workers, mentions-places,
  mentions-append, jobs_of, length-jobs_of,
}
use reinforce_spec.JobQueue.Bounded.{
  Among, Bounded, tasks-Bounded, tested-Bounded, timed_out-Bounded, took-Bounded, done-Bounded,
  cut-Bounded,
}
use reinforce_spec.JobQueue.Runs.{
  Op, starts, submits, tests, times_out, takes, ends, interrupts, begins_stop, ends_stop, step, run,
  of_task-holds,
}

module _ {ℓ} {R : Type ℓ} where
  -- No call of `start` while a call of `stop` waits.
  abbrev pub Allowed : JobQueue R → Op R → Type 0
  Allowed q starts = q.stopping ≡ []
  Allowed q (submits now jid name) = Unit {0}
  Allowed q (tests i) = Unit {0}
  Allowed q (times_out i) = Unit {0}
  Allowed q (takes now i) = Unit {0}
  Allowed q (ends now i ending) = Unit {0}
  Allowed q (interrupts now i) = Unit {0}
  Allowed q begins_stop = Unit {0}
  Allowed q (ends_stop k) = Unit {0}

  abbrev pub Orderly : JobQueue R → List (Op R) → Type 0
  Orderly q [] = Unit {0}
  Orderly q (op ∷ ops) = Allowed q op × Orderly (step q op) ops

-- A `stop` that waits no longer has outlived all the tasks that it gathered.
none_alive :
    (listed : List ℕ) (ws : List Worker) → is_alive listed ws ≡ false → Among listed ws → ws ≡ []
none_alive listed [] h a = refl
none_alive listed (w ∷ ws) h (among, more) = absurd (ground (arith, h, among))

gathers-at :
    (k : ℕ) (listed : List ℕ) (snapshots : List (List ℕ)) (ws : List Worker)
    → get_elem? snapshots k ≡ some listed
    → All (λ snapshot. Among snapshot ws) snapshots
    → Among listed ws
gathers-at k listed [] ws e a = absurd (none-ne-some listed e)
gathers-at zero listed (first ∷ rest) ws e (g, more) = subst (λ ks. Among ks ws) (some_inj.0 e) g
gathers-at (suc k) listed (first ∷ rest) ws e (g, more) = gathers-at k listed rest ws e more

no_tasks : (snapshots : List (List ℕ)) → All (λ snapshot. Among snapshot []) snapshots
no_tasks [] = tt
no_tasks (first ∷ rest) = (tt, no_tasks rest)

module _ {ℓ} {R : Type ℓ} (most : ℕ) where
  start-Bounded : (q : JobQueue R) → q.stopping ≡ [] → Bounded most q → Bounded most (start q)
  unfolding start
  start-Bounded q no_stop b =
      if-holds (Bounded most) q.is_running (λ on. b)
        (λ off.
          let idle = b.over off no_stop in
          let fresh = new_workers q.created q.max_concurrent in
          record {
            rate = b.rate;
            few = rw (idle, length-new_workers q.created q.max_concurrent) (omega (arith, b.rate));
            listed =
                subst (λ ws. Among (q.workers ++ places q.created q.max_concurrent) (ws ++ fresh))
                  (sym idle)
                  (new_workers-All
                    (λ w. mentions w.task (q.workers ++ places q.created q.max_concurrent) ≡ true)
                    q.created q.max_concurrent
                    (λ i l u.
                      mentions-append i q.workers (places q.created q.max_concurrent)
                        (mentions-places i q.created q.max_concurrent l u)));
            gathers = rw no_stop tt;
            over = λ off' none_there. absurd (ground (arith, off'));
            quiet = λ on. no_stop;
          })

  begin_stop-Bounded : (q : JobQueue R) → Bounded most q → Bounded most (begin_stop q)
  unfolding begin_stop
  begin_stop-Bounded q b =
      let kept = λ (snapshot : List ℕ).
        cancel_listed-All (λ w. mentions w.task snapshot ≡ true) q.workers q.tasks (λ w p. p) in
      record {
        rate = b.rate;
        few = omega (arith, length-cancel_listed q.workers q.tasks, b.few);
        listed = kept q.workers b.listed;
        gathers =
            All-append (λ snapshot. Among snapshot (cancel_listed q.workers q.tasks)) q.stopping
              (q.workers ∷ [])
              (All-weaken (λ snapshot. Among snapshot q.tasks)
                (λ snapshot. Among snapshot (cancel_listed q.workers q.tasks)) q.stopping kept
                b.gathers)
              (kept q.workers b.listed, tt);
        over = λ off none_there.
            absurd (omega (arith, ap length none_there, length-append q.stopping (q.workers ∷ [])));
        quiet = λ on. absurd (ground (arith, on));
      }

  gathered-Bounded :
      (k : ℕ) (listed : Option (List ℕ)) (q : JobQueue R)
      → get_elem? q.stopping k ≡ listed
      → Bounded most q
      → Bounded most (gathered k listed q)
  gathered-Bounded k none q e b = b
  gathered-Bounded k (some listed) q e b =
      if-holds (Bounded most) (is_alive listed q.tasks) (λ alive. b)
        (λ dead.
          let idle =
            none_alive listed q.tasks dead (gathers-at k listed q.stopping q.tasks e b.gathers) in
          record {
            rate = b.rate;
            few = b.few;
            listed = subst (Among []) (sym idle) tt;
            gathers =
                subst (λ ws. All (λ snapshot. Among snapshot ws) (remove_at k q.stopping))
                  (sym idle) (no_tasks (remove_at k q.stopping));
            over = λ off no_stop. idle;
            quiet = λ on. ap (remove_at k) (b.quiet on);
          })

  step-Bounded :
      (q : JobQueue R) (op : Op R) → Allowed q op → Bounded most q → Bounded most (step q op)
  unfolding step test_loop time_out take_job end_job interrupt end_stop enqueue
  step-Bounded q starts no_stop b = start-Bounded q no_stop b
  step-Bounded q (submits now jid name) h b =
      tasks-Bounded most q (enqueue now jid name q) refl refl refl refl (omega arith)
        (λ listed a. a) b
  step-Bounded q (tests i) h b =
      of_task-holds (Bounded most) (task_of i q.tasks) (tested i) q b
        (λ w e. tested-Bounded most i w.activity w.cancelled q b)
  step-Bounded q (times_out i) h b =
      of_task-holds (Bounded most) (task_of i q.tasks) (timed_out i) q b
        (λ w e. timed_out-Bounded most i w.activity w.cancelled q b)
  step-Bounded q (takes now i) h b =
      of_task-holds (Bounded most) (task_of i q.tasks) (took now i) q b
        (λ w e. took-Bounded most now i w.activity w.cancelled q b)
  step-Bounded q (ends now i ending) h b =
      of_task-holds (Bounded most) (task_of i q.tasks) (done now i ending) q b
        (λ w e. done-Bounded most now i ending w.activity w.cancelled q b)
  step-Bounded q (interrupts now i) h b =
      of_task-holds (Bounded most) (task_of i q.tasks) (cut now i) q b
        (λ w e. cut-Bounded most now i w.activity w.cancelled q b)
  step-Bounded q begins_stop h b = begin_stop-Bounded q b
  step-Bounded q (ends_stop k) h b = gathered-Bounded k (get_elem? q.stopping k) q refl b

  run-Bounded :
      (q : JobQueue R) (ops : List (Op R))
      → Orderly q ops
      → Bounded most q
      → Bounded most (run q ops)
  unfolding run
  run-Bounded q [] o b = b
  run-Bounded q (op ∷ ops) (allowed, o) b =
      run-Bounded (step q op) ops o (step-Bounded q op allowed b)

-- On a new queue, as long as `start` is not called while a `stop` waits for the workers: after any
-- steps of the callers and the workers, no more jobs run than `max_concurrent`, and no task of a
-- worker is left once the queue is not running and no `stop` waits.
pub history-Bounded {ℓ} :
    {R : Type ℓ} (max_concurrent : ℕ) (ops : List (Op R))
    → Orderly (init max_concurrent) ops
    → let q = run (init max_concurrent) ops in
      (length (jobs_of q.tasks) ≤ max_concurrent)
      × (q.is_running ≡ false → q.stopping ≡ [] → q.tasks ≡ [])
history-Bounded most ops o =
    let b = run-Bounded most (init most) ops o (
      unfold init in
      record {
        rate = refl;
        few = omega arith;
        listed = tt;
        gathers = tt;
        over = λ off none_there. refl;
        quiet = λ on. refl;
      }) in
    let q = run (init most) ops in (omega (arith, length-jobs_of q.tasks, b.few), b.over)
