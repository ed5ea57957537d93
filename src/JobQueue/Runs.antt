-- ===== src/JobQueue/Runs.antt =====
-- Runs of the callers and the workers of a queue as lists of steps.
use reinforce_spec.Prelude.{ℕ, ◌≡◌, refl, Bool, String, List, [], ◌∷◌, Option, none, some, nat_eq}
use reinforce_spec.JobQueue.Defs.{
  JobQueue, Activity, Worker, Ending, start, enqueue, of_task, test_loop, time_out, take_job,
  end_job, interrupt, begin_stop, end_stop,
}

pub data Op {ℓ} (R : Type ℓ) : Type ℓ where
  starts : Op R
  submits : ℕ → String → String → Op R
  tests : ℕ → Op R
  times_out : ℕ → Op R
  takes : ℕ → ℕ → Op R
  ends : ℕ → ℕ → Ending R → Op R
  interrupts : ℕ → ℕ → Op R
  begins_stop : Op R
  ends_stop : ℕ → Op R

module _ {ℓ} {R : Type ℓ} where
  unfoldable pub step : JobQueue R → Op R → JobQueue R
  step q starts = start q
  step q (submits now jid name) = enqueue now jid name q
  step q (tests i) = test_loop i q
  step q (times_out i) = time_out i q
  step q (takes now i) = take_job now i q
  step q (ends now i ending) = end_job now i ending q
  step q (interrupts now i) = interrupt now i q
  step q begins_stop = begin_stop q
  step q (ends_stop k) = end_stop k q

  unfoldable pub run : JobQueue R → List (Op R) → JobQueue R
  unfolding step
  run q [] = q
  run q (op ∷ ops) = run (step q op) ops

  -- What a step of a task has to show.
  pub of_task-holds {κ} :
      (P : JobQueue R → Type κ) (w : Option Worker) (f : Activity → Bool → JobQueue R → JobQueue R)
      (q : JobQueue R)
      → P q
      → ((x : Worker) → w ≡ some x → P (f x.activity x.cancelled q))
      → P (of_task w f q)
  of_task-holds P none f q p h = p
  of_task-holds P (some x) f q p h = h x refl
