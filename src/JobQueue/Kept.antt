-- ===== src/JobQueue/Kept.antt =====
-- The steps of the workers that start no job keep the order of the jobs.
use reinforce_spec.Prelude.{
  if-holds, ℕ, ◌+◌, ◌<◌, ◌≡◌, refl, sym, ap, ◌∙◌, Bool, true, false, length, ltb, leb, nat_eq,
  if◌then◌else◌, get_elem?, arith, All,
}
use reinforce_spec.JobQueue.Defs.{
  Job, JobQueue, Activity, looping, waiting, busy, Worker, Ending, returns, raises, interrupted,
  tested, timed_out, done, cut, put, quit, ended, places,
}
use reinforce_spec.JobQueue.Objects.{
  pending_status, is_pending, length-modify, pending-modify, pending-interrupted,
}
use reinforce_spec.JobQueue.Tasks.{put-All, quit-All}

abbrev pub EarlyOf : ℕ → Activity → Type 0
EarlyOf next looping = Unit {0}
EarlyOf next waiting = Unit {0}
EarlyOf next (busy k) = k < next

-- The job of a task, if it runs one, is among the first `next`.
abbrev pub Early : ℕ → Worker → Type 0
Early next w = EarlyOf next w.activity

pub early_later : (next : ℕ) (a : Activity) → EarlyOf next a → EarlyOf (next + 1) a
early_later next looping e = tt
early_later next waiting e = tt
early_later next (busy k) e = omega (arith, e)

module _ {ℓ} {R : Type ℓ} where
  -- The jobs from `next` on wait in the queue in their order, and those before it have started.
  pub record Ordered (next : ℕ) (q : JobQueue R) : Type ℓ where
    pub count : ℕ
    pub split : next + count ≡ length q.objects
    pub in_order : q.queue ≡ places next count
    pub pending :
        (k : ℕ)
        → is_pending (get_elem? q.objects k)
          ≡ (if leb next k then ltb k (length q.objects) else false)
    pub before : All (Early next) q.tasks

  -- Only tasks change, and no job starts.
  pub tasks-Ordered :
      (next : ℕ) (q q' : JobQueue R)
      → q'.objects ≡ q.objects
      → q'.queue ≡ q.queue
      → All (Early next) q'.tasks
      → Ordered next q
      → Ordered next q'
  tasks-Ordered next q q' objects queue early o = record {
    count = o.count;
    split = o.split ∙ ap length (sym objects);
    in_order = queue ∙ o.in_order;
    pending = λ k. rw (objects, o.pending k) refl;
    before = early;
  }

  pub put-Ordered :
      (next i : ℕ) (a : Activity) (q : JobQueue R)
      → EarlyOf next a
      → Ordered next q
      → Ordered next (record q { tasks = put i a q.tasks })
  put-Ordered next i a q e o =
      tasks-Ordered next q (record q { tasks = put i a q.tasks }) refl refl
        (put-All (Early next) i a q.tasks (λ w p. e) o.before) o

  pub quit-Ordered :
      (next i : ℕ) (q : JobQueue R)
      → Ordered next q
      → Ordered next (record q { tasks = quit i q.tasks })
  quit-Ordered next i q o =
      tasks-Ordered next q (record q { tasks = quit i q.tasks }) refl refl
        (quit-All (Early next) i q.tasks o.before) o

  pub tested-Ordered :
      (next i : ℕ) (a : Activity) (c : Bool) (q : JobQueue R)
      → Ordered next q
      → Ordered next (tested i a c q)
  tested-Ordered next i looping false q o =
      if-holds (λ ws. Ordered next (record q { tasks = ws })) q.is_running
        (λ on. put-Ordered next i waiting q tt o) (λ off. quit-Ordered next i q o)
  tested-Ordered next i looping true q o = quit-Ordered next i q o
  tested-Ordered next i waiting c q o = o
  tested-Ordered next i (busy k) c q o = o

  pub timed_out-Ordered :
      (next i : ℕ) (a : Activity) (c : Bool) (q : JobQueue R)
      → Ordered next q
      → Ordered next (timed_out i a c q)
  timed_out-Ordered next i waiting false q o = put-Ordered next i looping q tt o
  timed_out-Ordered next i waiting true q o = o
  timed_out-Ordered next i looping c q o = o
  timed_out-Ordered next i (busy k) c q o = o

  ended-status :
      (now : ℕ) (ending : Ending R) (j : Job R) → pending_status (ended now ending j).status ≡ false
  unfolding ended
  ended-status now (returns r) j = refl
  ended-status now (raises trace) j = refl

  pub done-Ordered :
      (next now i : ℕ) (ending : Ending R) (a : Activity) (c : Bool) (q : JobQueue R)
      → EarlyOf next a
      → Ordered next q
      → Ordered next (done now i ending a c q)
  done-Ordered next now i ending (busy k) c q early o = record {
    count = o.count;
    split = rw (length-modify k (ended now ending) q.objects) o.split;
    in_order = o.in_order;
    pending = λ j. ground (
      arith,
      pending-modify k j (ended now ending) q.objects (ended-status now ending),
      o.pending j,
      length-modify k (ended now ending) q.objects,
      early,
    );
    before = put-All (Early next) i looping q.tasks (λ w p. tt) o.before;
  }
  done-Ordered next now i ending looping c q early o = o
  done-Ordered next now i ending waiting c q early o = o

  pub cut-Ordered :
      (next now i : ℕ) (a : Activity) (c : Bool) (q : JobQueue R)
      → Ordered next q
      → Ordered next (cut now i a c q)
  cut-Ordered next now i (busy k) true q o = record {
    count = o.count;
    split = rw (length-modify k (interrupted now) q.objects) o.split;
    in_order = o.in_order;
    pending = λ j.
        pending-interrupted k j now q.objects
        ∙ rw (length-modify k (interrupted now) q.objects) (o.pending j);
    before = quit-All (Early next) i q.tasks o.before;
  }
  cut-Ordered next now i waiting true q o = quit-Ordered next i q o
  cut-Ordered next now i looping c q o = o
  cut-Ordered next now i waiting false q o = o
  cut-Ordered next now i (busy k) false q o = o
