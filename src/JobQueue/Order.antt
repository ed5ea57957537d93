-- ===== src/JobQueue/Order.antt =====
-- Jobs start in the order in which they were submitted.
use reinforce_spec.Prelude.{
  if-holds, ℕ, zero, suc, ◌+◌, ◌≤◌, ◌≡◌, refl, sym, ap, ◌∙◌, Bool, true, false, String, List, [],
  ◌∷◌, ◌++◌, Option, none, some, length, nat_eq, get_elem?, arith, length-append, subst,
}
use reinforce_spec.Prelude.Counting.{All-weaken, All-append}
use reinforce_spec.JobQueue.Defs.{
  Job, JobQueue, Activity, looping, waiting, busy, init, start, enqueue, started, taken, took,
  tested, timed_out, done, cut, task_of, new_workers, is_alive, remove_at, new_job, test_loop,
  time_out, take_job, end_job, interrupt, begin_stop, gathered, end_stop, places,
}
use reinforce_spec.JobQueue.Objects.{length-modify, pending-modify, pending-append, places-append}
use reinforce_spec.JobQueue.Tasks.{put-All, cancel_listed-All, task_of-All, new_workers-All}
use reinforce_spec.JobQueue.Runs.{
  Op, starts, submits, tests, times_out, takes, ends, interrupts, begins_stop, ends_stop, step, run,
  of_task-holds,
}
use reinforce_spec.JobQueue.Kept.{
  Early, early_later, Ordered, tasks-Ordered, tested-Ordered, timed_out-Ordered, done-Ordered,
  cut-Ordered,
}

module _ {ℓ} {R : Type ℓ} where
  -- A job may have started.
  abbrev pub Later : ℕ → JobQueue R → Type ℓ
  Later next q = (later : ℕ) × ((next ≤ later) × Ordered later q)

  taken-Later :
      (next now i : ℕ) (q : JobQueue R) (n : ℕ)
      → next + n ≡ length q.objects
      → q.queue ≡ places next n
      → Ordered next q
      → Later next (taken now i q.queue q)
  taken-Later next now i q zero split e o =
      subst (λ ks. Later next (taken now i ks q)) (sym e) (next, (omega arith, o))
  taken-Later next now i q (suc n) split e o =
      let first : Job R → Job R = started now in
      rw e (
        next + 1,
        (
          omega arith,
          record {
            count = n;
            split = rw (length-modify next first q.objects) (omega (arith, split));
            in_order = refl;
            pending = λ j. ground (
              arith,
              pending-modify next j first q.objects (λ k. refl),
              o.pending j,
              length-modify next first q.objects,
            );
            before =
                put-All (Early (next + 1)) i (busy next) q.tasks (λ w p. omega arith)
                  (All-weaken (Early next) (Early (next + 1)) q.tasks
                    (λ w. early_later next w.activity) o.before);
          },
        ),
      )

  took-Later :
      (next now i : ℕ) (a : Activity) (c : Bool) (q : JobQueue R)
      → Ordered next q
      → Later next (took now i a c q)
  took-Later next now i waiting false q o = taken-Later next now i q o.count o.split o.in_order o
  took-Later next now i waiting true q o = (next, (omega arith, o))
  took-Later next now i looping c q o = (next, (omega arith, o))
  took-Later next now i (busy k) c q o = (next, (omega arith, o))

  submit-Ordered :
      (next now : ℕ) (jid name : String) (q : JobQueue R)
      → Ordered next q
      → Ordered next (enqueue now jid name q)
  unfolding enqueue
  submit-Ordered next now jid name q o = record {
    count = o.count + 1;
    split = rw (length-append q.objects) (omega (arith, o.split));
    in_order =
        ap (λ ks. ks ++ length q.objects ∷ []) o.in_order
        ∙ ap (λ k. places next o.count ++ k ∷ []) (sym o.split)
        ∙ places-append next o.count
        ∙ ap (places next) {x = suc o.count} (omega arith);
    pending = λ k. ground (
      arith,
      pending-append q.objects (new_job now jid name) k refl,
      o.pending k,
      o.split,
      length-append q.objects (new_job now jid name ∷ []),
    );
    before = o.before;
  }

  start-Ordered : (next : ℕ) (q : JobQueue R) → Ordered next q → Ordered next (start q)
  unfolding start
  start-Ordered next q o =
      if-holds (Ordered next) q.is_running (λ on. o)
        (λ off. record {
          count = o.count;
          split = o.split;
          in_order = o.in_order;
          pending = o.pending;
          before =
              All-append (Early next) q.tasks (new_workers q.created q.max_concurrent) o.before
                (new_workers-All (Early next) q.created q.max_concurrent (λ i l u. tt));
        })

  gathered-Ordered :
      (next k : ℕ) (listed : Option (List ℕ)) (q : JobQueue R)
      → Ordered next q
      → Ordered next (gathered k listed q)
  gathered-Ordered next k none q o = o
  gathered-Ordered next k (some listed) q o =
      if-holds (Ordered next) (is_alive listed q.tasks) (λ alive. o)
        (λ over.
          tasks-Ordered next q (record q { workers = []; stopping = remove_at k q.stopping }) refl
            refl o.before o)

  step-Later : (next : ℕ) (q : JobQueue R) (op : Op R) → Ordered next q → Later next (step q op)
  unfolding step test_loop time_out take_job end_job interrupt begin_stop end_stop
  step-Later next q starts o = (next, (omega arith, start-Ordered next q o))
  step-Later next q (submits now jid name) o =
      (next, (omega arith, submit-Ordered next now jid name q o))
  step-Later next q (tests i) o = (
    next,
    (
      omega arith,
      of_task-holds (Ordered next) (task_of i q.tasks) (tested i) q o
          (λ w e. tested-Ordered next i w.activity w.cancelled q o),
    ),
  )
  step-Later next q (times_out i) o = (
    next,
    (
      omega arith,
      of_task-holds (Ordered next) (task_of i q.tasks) (timed_out i) q o
          (λ w e. timed_out-Ordered next i w.activity w.cancelled q o),
    ),
  )
  step-Later next q (takes now i) o =
      of_task-holds (Later next) (task_of i q.tasks) (took now i) q (next, (omega arith, o))
        (λ w e. took-Later next now i w.activity w.cancelled q o)
  step-Later next q (ends now i ending) o = (
    next,
    (
      omega arith,
      of_task-holds (Ordered next) (task_of i q.tasks) (done now i ending) q o (λ w e.
          done-Ordered next now i ending w.activity w.cancelled q
            (task_of-All (Early next) i q.tasks w o.before e) o),
    ),
  )
  step-Later next q (interrupts now i) o = (
    next,
    (
      omega arith,
      of_task-holds (Ordered next) (task_of i q.tasks) (cut now i) q o
          (λ w e. cut-Ordered next now i w.activity w.cancelled q o),
    ),
  )
  step-Later next q begins_stop o = (
    next,
    (
      omega arith,
      tasks-Ordered next q (begin_stop q) refl refl
          (cancel_listed-All (Early next) q.workers q.tasks (λ w p. p) o.before) o,
    ),
  )
  step-Later next q (ends_stop k) o =
      (next, (omega arith, gathered-Ordered next k (get_elem? q.stopping k) q o))

  run-Ordered :
      (next : ℕ) (q : JobQueue R) (ops : List (Op R))
      → Ordered next q
      → (later : ℕ) × Ordered later (run q ops)
  unfolding run
  run-Ordered next q [] o = (next, o)
  run-Ordered next q (op ∷ ops) o =
      let (later, (grows, o')) = step-Later next q op o in run-Ordered later (step q op) ops o'

  -- After any steps of the callers and the workers of a new queue there is a number of jobs that have
  -- started: the jobs submitted after them, and no others, are pending, they wait in the queue in the
  -- order of submission, and every job that a worker runs is among the started ones.
  pub history-Ordered :
      (max_concurrent : ℕ) (ops : List (Op R))
      → (next : ℕ) × Ordered next (run (init max_concurrent) ops)
  unfolding init
  history-Ordered most ops = run-Ordered 0 (init most) ops (record {
    count = 0;
    split = refl;
    in_order = refl;
    pending = λ k. ground arith;
    before = tt;
  })
