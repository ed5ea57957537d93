-- ===== src/JobQueue/Tasks.antt =====
-- What the steps of the workers keep of all their tasks.
use reinforce_spec.Prelude.{
  ℕ, zero, suc, ◌+◌, ◌<◌, ◌≤◌, ◌≡◌, refl, sym, ap, ◌∙◌, subst, true, false, List, [], ◌∷◌, ◌++◌,
  some, length, nat_beq, nat_eq, if◌then◌else◌, arith, All, Bool-cases, inl, inr,
}
use mathlib.Core.Option.{none-ne-some, some_inj}
use reinforce_spec.JobQueue.Defs.{
  Activity, looping, waiting, busy, Worker, put, quit, task_of, cancel_listed, new_workers,
  mentions, places,
}

pub put-All {ℓ} :
    (P : Worker → Type ℓ) (i : ℕ) (activity : Activity) (ws : List Worker)
    → ((w : Worker) → P w → P (record w { activity = activity }))
    → All P ws
    → All P (put i activity ws)
put-All P i activity [] h a = tt
put-All P i activity (w ∷ ws) h (p, more) = elim (Bool-cases (nat_beq w.task i)) [
  | inl here ↦ rw here (h w p, more)
  | inr elsewhere ↦ rw elsewhere (p, put-All P i activity ws h more)
]

pub quit-All {ℓ} : (P : Worker → Type ℓ) (i : ℕ) (ws : List Worker) → All P ws → All P (quit i ws)
quit-All P i [] a = tt
quit-All P i (w ∷ ws) (p, more) = elim (Bool-cases (nat_beq w.task i)) [
  | inl here ↦ rw here more
  | inr elsewhere ↦ rw elsewhere (p, quit-All P i ws more)
]

pub cancel_listed-All {ℓ} :
    (P : Worker → Type ℓ) (listed : List ℕ) (ws : List Worker)
    → ((w : Worker) → P w → P (record w { cancelled = true }))
    → All P ws
    → All P (cancel_listed listed ws)
cancel_listed-All P listed [] h a = tt
cancel_listed-All P listed (w ∷ ws) h (p, more) = elim (Bool-cases (mentions w.task listed)) [
  | inl among ↦ rw among (h w p, cancel_listed-All P listed ws h more)
  | inr other ↦ rw other (p, cancel_listed-All P listed ws h more)
]

pub task_of-All {ℓ} :
    (P : Worker → Type ℓ) (i : ℕ) (ws : List Worker) (w : Worker)
    → All P ws
    → task_of i ws ≡ some w
    → P w
task_of-All P i [] w a e = absurd (none-ne-some w e)
task_of-All P i (x ∷ ws) w (p, more) e = elim (Bool-cases (nat_beq x.task i)) [
  | inl here ↦ subst P (some_inj.0 (ap (λ b. if b then some x else task_of i ws) (sym here) ∙ e)) p
  | inr elsewhere ↦
      task_of-All P i ws w more (ap (λ b. if b then some x else task_of i ws) (sym elsewhere) ∙ e)
]

pub length-put :
    (i : ℕ) (activity : Activity) (ws : List Worker) → length (put i activity ws) ≡ length ws
length-put i activity [] = refl
length-put i activity (w ∷ ws) = ground (arith, length-put i activity ws)

pub length-quit : (i : ℕ) (ws : List Worker) → length (quit i ws) ≤ length ws
length-quit i [] = omega arith
length-quit i (w ∷ ws) = ground (arith, length-quit i ws)

pub length-cancel_listed :
    (listed : List ℕ) (ws : List Worker) → length (cancel_listed listed ws) ≡ length ws
length-cancel_listed listed [] = refl
length-cancel_listed listed (w ∷ ws) = ap suc (length-cancel_listed listed ws)

pub length-new_workers : (first n : ℕ) → length (new_workers first n) ≡ n
length-new_workers first zero = refl
length-new_workers first (suc n) = ap suc (length-new_workers (first + 1) n)

pub new_workers-All {ℓ} :
    (P : Worker → Type ℓ) (first n : ℕ)
    → ((i : ℕ)
        → first ≤ i
        → i < first + n
        → P (record { task = i; activity = looping; cancelled = false }))
    → All P (new_workers first n)
new_workers-All P first zero h = tt
new_workers-All P first (suc n) h = (
  h first (omega arith) (omega arith),
  new_workers-All P (first + 1) n (λ i l u. h i (omega (arith, l)) (omega (arith, u))),
)

pub mentions-places :
    (i first n : ℕ) → first ≤ i → i < first + n → mentions i (places first n) ≡ true
mentions-places i first zero l u = absurd (omega (arith, l, u))
mentions-places i first (suc n) l u = ground (arith, l, u, mentions-places i (first + 1) n)

pub mentions-append : (i : ℕ) (xs ys : List ℕ) → mentions i ys ≡ true → mentions i (xs ++ ys) ≡ true
mentions-append i [] ys h = h
mentions-append i (x ∷ xs) ys h = ground (arith, mentions-append i xs ys h)

-- The jobs that run.
abbrev pub job_of : Activity → List ℕ → List ℕ
job_of looping rest = rest
job_of waiting rest = rest
job_of (busy k) rest = k ∷ rest

abbrev pub jobs_of : List Worker → List ℕ
jobs_of [] = []
jobs_of (w ∷ ws) = job_of w.activity (jobs_of ws)

length-job_of : (a : Activity) (ks : List ℕ) → length (job_of a ks) ≤ suc (length ks)
length-job_of looping ks = omega arith
length-job_of waiting ks = omega arith
length-job_of (busy k) ks = omega arith

pub length-jobs_of : (ws : List Worker) → length (jobs_of ws) ≤ length ws
length-jobs_of [] = omega arith
length-jobs_of (w ∷ ws) = omega (arith, length-job_of w.activity (jobs_of ws), length-jobs_of ws)
