-- ===== src/JobQueue/Bounded.antt =====
-- What the steps of the workers keep of the number of their tasks.
use reinforce_spec.Prelude.{
  if-holds, ℕ, ◌≤◌, ◌≡◌, refl, sym, ap, ◌∙◌, Bool, true, false, List, [], ◌∷◌, length, arith, All,
  subst,
}
use reinforce_spec.Prelude.Counting.{All-weaken}
use reinforce_spec.JobQueue.Defs.{
  Job, JobQueue, Ending, started, ended, interrupted, modify, Activity, looping, waiting, busy,
  Worker, taken, took, tested, timed_out, done, cut, put, quit, mentions,
}
use reinforce_spec.JobQueue.Tasks.{put-All, quit-All, length-put, length-quit}

-- All tasks are among these.
abbrev pub Among : List ℕ → List Worker → Type 0
Among listed = All (λ w. mentions w.task listed ≡ true)

module _ {ℓ} {R : Type ℓ} (most : ℕ) where
  pub record Bounded (q : JobQueue R) : Type ℓ where
    pub rate : q.max_concurrent ≡ most
    pub few : length q.tasks ≤ most
    pub listed : Among q.workers q.tasks
    pub gathers : All (λ snapshot. Among snapshot q.tasks) q.stopping
    pub over : q.is_running ≡ false → q.stopping ≡ [] → q.tasks ≡ []
    pub quiet : q.is_running ≡ true → q.stopping ≡ []

  -- A step of a task leaves it there, or ends it.
  pub tasks-Bounded :
      (q q' : JobQueue R)
      → q'.workers ≡ q.workers
      → q'.stopping ≡ q.stopping
      → q'.is_running ≡ q.is_running
      → q'.max_concurrent ≡ q.max_concurrent
      → length q'.tasks ≤ length q.tasks
      → ((snapshot : List ℕ) → Among snapshot q.tasks → Among snapshot q'.tasks)
      → Bounded q
      → Bounded q'
  tasks-Bounded q q' workers stopping running rate fewer keeps b = record {
    rate = rate ∙ b.rate;
    few = omega (arith, fewer, b.few);
    listed = subst (λ ks. Among ks q'.tasks) (sym workers) (keeps q.workers b.listed);
    gathers =
        subst (λ snapshots. All (λ snapshot. Among snapshot q'.tasks) snapshots) (sym stopping)
          (All-weaken (λ snapshot. Among snapshot q.tasks) (λ snapshot. Among snapshot q'.tasks)
            q.stopping keeps b.gathers);
    over = λ off no_stop.
        none_left q'.tasks
          (omega (arith, fewer, ap length (b.over (sym running ∙ off) (sym stopping ∙ no_stop))));
    quiet = λ on. stopping ∙ b.quiet (sym running ∙ on);
  }
    where
      none_left : (ws : List Worker) → length ws ≤ 0 → ws ≡ []
      none_left [] h = refl
      none_left (w ∷ ws) h = absurd (omega (arith, h))

  put-Bounded :
      (q : JobQueue R) (i : ℕ) (a : Activity) (queue : List ℕ) (objects : List (Job R))
      → Bounded q
      → Bounded (record q { tasks = put i a q.tasks; queue = queue; objects = objects })
  put-Bounded q i a queue objects b =
      tasks-Bounded q (record q { tasks = put i a q.tasks; queue = queue; objects = objects }) refl
        refl refl refl (omega (arith, length-put i a q.tasks))
        (λ listed. put-All (λ w. mentions w.task listed ≡ true) i a q.tasks (λ w p. p)) b

  quit-Bounded :
      (q : JobQueue R) (i : ℕ) (objects : List (Job R))
      → Bounded q
      → Bounded (record q { tasks = quit i q.tasks; objects = objects })
  quit-Bounded q i objects b =
      tasks-Bounded q (record q { tasks = quit i q.tasks; objects = objects }) refl refl refl refl
        (length-quit i q.tasks) (λ listed. quit-All (λ w. mentions w.task listed ≡ true) i q.tasks)
        b

  pub tested-Bounded :
      (i : ℕ) (a : Activity) (c : Bool) (q : JobQueue R) → Bounded q → Bounded (tested i a c q)
  tested-Bounded i looping false q b =
      if-holds (λ ws. Bounded (record q { tasks = ws })) q.is_running
        (λ on. put-Bounded q i waiting q.queue q.objects b) (λ off. quit-Bounded q i q.objects b)
  tested-Bounded i looping true q b = quit-Bounded q i q.objects b
  tested-Bounded i waiting c q b = b
  tested-Bounded i (busy k) c q b = b

  pub timed_out-Bounded :
      (i : ℕ) (a : Activity) (c : Bool) (q : JobQueue R) → Bounded q → Bounded (timed_out i a c q)
  timed_out-Bounded i waiting false q b = put-Bounded q i looping q.queue q.objects b
  timed_out-Bounded i waiting true q b = b
  timed_out-Bounded i looping c q b = b
  timed_out-Bounded i (busy k) c q b = b

  taken-Bounded :
      (now i : ℕ) (queue : List ℕ) (q : JobQueue R) → Bounded q → Bounded (taken now i queue q)
  taken-Bounded now i [] q b = b
  taken-Bounded now i (k ∷ rest) q b =
      put-Bounded q i (busy k) rest (modify k (started now) q.objects) b

  pub took-Bounded :
      (now i : ℕ) (a : Activity) (c : Bool) (q : JobQueue R)
      → Bounded q
      → Bounded (took now i a c q)
  took-Bounded now i waiting false q b = taken-Bounded now i q.queue q b
  took-Bounded now i waiting true q b = b
  took-Bounded now i looping c q b = b
  took-Bounded now i (busy k) c q b = b

  pub done-Bounded :
      (now i : ℕ) (ending : Ending R) (a : Activity) (c : Bool) (q : JobQueue R)
      → Bounded q
      → Bounded (done now i ending a c q)
  done-Bounded now i ending (busy k) c q b =
      put-Bounded q i looping q.queue (modify k (ended now ending) q.objects) b
  done-Bounded now i ending looping c q b = b
  done-Bounded now i ending waiting c q b = b

  pub cut-Bounded :
      (now i : ℕ) (a : Activity) (c : Bool) (q : JobQueue R) → Bounded q → Bounded (cut now i a c q)
  cut-Bounded now i (busy k) true q b = quit-Bounded q i (modify k (interrupted now) q.objects) b
  cut-Bounded now i waiting true q b = quit-Bounded q i q.objects b
  cut-Bounded now i looping c q b = b
  cut-Bounded now i waiting false q b = b
  cut-Bounded now i (busy k) false q b = b
