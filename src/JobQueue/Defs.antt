-- ===== src/JobQueue/Defs.antt =====
-- Job objects are shared by the dictionary and the queue: a job is its place in the list `objects`,
-- in the order of creation. A worker suspends while it waits for a job and while the job runs, and
-- `stop` while it gathers the workers: what happens between two suspensions is a step. `R` is what
-- jobs return. A job does not swallow its cancellation.
use reinforce_spec.Prelude.{
  ℕ, zero, suc, ◌+◌, Bool, true, false, String, List, [], ◌∷◌, ◌++◌, Option, none, some, length,
  nat_beq, if◌then◌else◌, string_eq, get_elem?,
}
use reinforce_spec.Prelude.Dict.{lookup, insert}

pub data JobStatus : Type 0 where
  pending running completed failed : JobStatus

pub record Job {ℓ} (R : Type ℓ) : Type ℓ where
  pub id : String
  pub name : String
  pub status : JobStatus
  pub created_at : ℕ
  pub started_at : Option ℕ
  pub completed_at : Option ℕ
  pub result : Option R
  pub error : Option String

-- Where the task of a worker stands: before the test of its loop, in `get`, or in the call of a job.
pub data Activity : Type 0 where
  looping waiting : Activity
  busy : ℕ → Activity

pub record Worker : Type 0 where
  pub task : ℕ
  pub activity : Activity
  pub cancelled : Bool

pub record JobQueue {ℓ} (R : Type ℓ) : Type ℓ where
  pub max_concurrent : ℕ
  pub objects : List (Job R)
  pub jobs : List (String × ℕ)
  pub queue : List ℕ
  -- The tasks in `_workers`, all those that have not ended, and how many were ever created.
  pub workers : List ℕ
  pub tasks : List Worker
  pub created : ℕ
  pub is_running : Bool
  -- The calls of `stop` that wait, each with the tasks that it gathers.
  pub stopping : List (List ℕ)

-- How the callable of a job ends.
pub data Ending {ℓ} (R : Type ℓ) : Type ℓ where
  returns : R → Ending R
  raises : String → Ending R

abbrev pub mentions : ℕ → List ℕ → Bool
mentions k [] = false
mentions k (j ∷ js) = if nat_beq j k then true else mentions k js

-- `n` numbers from `first` on.
abbrev pub places : ℕ → ℕ → List ℕ
places first zero = []
places first (suc n) = first ∷ places (first + 1) n

abbrev pub new_workers : ℕ → ℕ → List Worker
new_workers first zero = []
new_workers first (suc n) =
    record { task = first; activity = looping; cancelled = false } ∷ new_workers (first + 1) n

abbrev pub task_of : ℕ → List Worker → Option Worker
task_of i [] = none
task_of i (w ∷ ws) = if nat_beq w.task i then some w else task_of i ws

abbrev pub put : ℕ → Activity → List Worker → List Worker
put i activity [] = []
put i activity (w ∷ ws) =
    if nat_beq w.task i then record w { activity = activity } ∷ ws else w ∷ put i activity ws

-- The task ends.
abbrev pub quit : ℕ → List Worker → List Worker
quit i [] = []
quit i (w ∷ ws) = if nat_beq w.task i then ws else w ∷ quit i ws

abbrev pub cancel_listed : List ℕ → List Worker → List Worker
cancel_listed listed [] = []
cancel_listed listed (w ∷ ws) =
    (if mentions w.task listed then record w { cancelled = true } else w) ∷ cancel_listed listed ws

-- Some of the tasks with these numbers has not ended.
abbrev pub is_alive : List ℕ → List Worker → Bool
is_alive listed [] = false
is_alive listed (w ∷ ws) = if mentions w.task listed then true else is_alive listed ws

abbrev pub remove_at {ℓ} : {A : Type ℓ} → ℕ → List A → List A
remove_at k [] = []
remove_at zero (x ∷ xs) = xs
remove_at (suc k) (x ∷ xs) = x ∷ remove_at k xs

module _ {ℓ} {R : Type ℓ} where
  unfoldable pub init : ℕ → JobQueue R
  init max_concurrent = record {
    max_concurrent = max_concurrent;
    objects = [];
    jobs = [];
    queue = [];
    workers = [];
    tasks = [];
    created = 0;
    is_running = false;
    stopping = [];
  }

  abbrev pub modify : ℕ → (Job R → Job R) → List (Job R) → List (Job R)
  modify k f [] = []
  modify zero f (j ∷ js) = f j ∷ js
  modify (suc k) f (j ∷ js) = j ∷ modify k f js

  unfoldable pub start : JobQueue R → JobQueue R
  start q = if q.is_running then q else record q {
    is_running = true;
    tasks = q.tasks ++ new_workers q.created q.max_concurrent;
    workers = q.workers ++ places q.created q.max_concurrent;
    created = q.created + q.max_concurrent;
  }

  abbrev pub new_job : ℕ → String → String → Job R
  new_job now jid name = record {
    id = jid;
    name = name;
    status = JobStatus.pending;
    created_at = now;
    started_at = none;
    completed_at = none;
    result = none;
    error = none;
  }

  unfoldable pub enqueue : ℕ → String → String → JobQueue R → JobQueue R
  enqueue now jid name q = record q {
    objects = q.objects ++ new_job now jid name ∷ [];
    jobs = insert jid (length q.objects) q.jobs;
    queue = q.queue ++ length q.objects ∷ [];
  }

  abbrev pub object : Option ℕ → List (Job R) → Option (Job R)
  object none objects = none
  object (some k) objects = get_elem? objects k

  unfoldable pub get_job : String → JobQueue R → Option (Job R)
  get_job jid q = object (lookup jid q.jobs) q.objects

  abbrev pub started : ℕ → Job R → Job R
  started now j = record j { status = JobStatus.running; started_at = some now }

  -- The test of `while self._running`; a task with a cancellation to come gets it at its next
  -- suspension, or before it has started, and ends.
  abbrev pub tested : ℕ → Activity → Bool → JobQueue R → JobQueue R
  tested i looping false q = record q {
    tasks = (if q.is_running then put i waiting q.tasks else quit i q.tasks);
  }
  tested i looping true q = record q { tasks = quit i q.tasks }
  tested i waiting cancelled q = q
  tested i (busy k) cancelled q = q

  -- TimeoutError
  abbrev pub timed_out : ℕ → Activity → Bool → JobQueue R → JobQueue R
  timed_out i waiting false q = record q { tasks = put i looping q.tasks }
  timed_out i waiting true q = q
  timed_out i looping cancelled q = q
  timed_out i (busy k) cancelled q = q

  -- `get` returns the first job.
  abbrev pub taken : ℕ → ℕ → List ℕ → JobQueue R → JobQueue R
  taken now i [] q = q
  taken now i (k ∷ rest) q = record q {
    queue = rest;
    objects = modify k (started now) q.objects;
    tasks = put i (busy k) q.tasks;
  }

  abbrev pub took : ℕ → ℕ → Activity → Bool → JobQueue R → JobQueue R
  took now i waiting false q = taken now i q.queue q
  took now i waiting true q = q
  took now i looping cancelled q = q
  took now i (busy k) cancelled q = q

  -- The `try` around the call, with its `finally`.
  unfoldable pub ended : ℕ → Ending R → Job R → Job R
  ended now (returns r) j = record j {
    result = some r;
    status = JobStatus.completed;
    completed_at = some now;
  }
  ended now (raises trace) j = record j {
    status = JobStatus.failed;
    error = some trace;
    completed_at = some now;
  }

  -- CancelledError is no `Exception`: only the `finally` runs.
  abbrev pub interrupted : ℕ → Job R → Job R
  interrupted now j = record j { completed_at = some now }

  abbrev pub done : ℕ → ℕ → Ending R → Activity → Bool → JobQueue R → JobQueue R
  done now i ending (busy k) cancelled q = record q {
    objects = modify k (ended now ending) q.objects;
    tasks = put i looping q.tasks;
  }
  done now i ending looping cancelled q = q
  done now i ending waiting cancelled q = q

  -- The cancellation reaches a task that waits or runs a job.
  abbrev pub cut : ℕ → ℕ → Activity → Bool → JobQueue R → JobQueue R
  cut now i (busy k) true q = record q {
    objects = modify k (interrupted now) q.objects;
    tasks = quit i q.tasks;
  }
  cut now i waiting true q = record q { tasks = quit i q.tasks }
  cut now i looping cancelled q = q
  cut now i waiting false q = q
  cut now i (busy k) false q = q

  -- A step of the task `i`, if it has not ended.
  abbrev pub of_task :
      Option Worker → (Activity → Bool → JobQueue R → JobQueue R) → JobQueue R → JobQueue R
  of_task none f q = q
  of_task (some w) f q = f w.activity w.cancelled q

  unfoldable pub test_loop : ℕ → JobQueue R → JobQueue R
  test_loop i q = of_task (task_of i q.tasks) (tested i) q

  unfoldable pub time_out : ℕ → JobQueue R → JobQueue R
  time_out i q = of_task (task_of i q.tasks) (timed_out i) q

  unfoldable pub take_job : ℕ → ℕ → JobQueue R → JobQueue R
  take_job now i q = of_task (task_of i q.tasks) (took now i) q

  unfoldable pub end_job : ℕ → ℕ → Ending R → JobQueue R → JobQueue R
  unfolding ended
  end_job now i ending q = of_task (task_of i q.tasks) (done now i ending) q

  unfoldable pub interrupt : ℕ → ℕ → JobQueue R → JobQueue R
  interrupt now i q = of_task (task_of i q.tasks) (cut now i) q

  -- `stop` up to the end of its `gather`, and from there.
  unfoldable pub begin_stop : JobQueue R → JobQueue R
  begin_stop q = record q {
    is_running = false;
    tasks = cancel_listed q.workers q.tasks;
    stopping = q.stopping ++ q.workers ∷ [];
  }

  abbrev pub gathered : ℕ → Option (List ℕ) → JobQueue R → JobQueue R
  gathered k none q = q
  gathered k (some listed) q =
      if is_alive listed q.tasks
      then q
      else record q { workers = []; stopping = remove_at k q.stopping }

  unfoldable pub end_stop : ℕ → JobQueue R → JobQueue R
  end_stop k q = gathered k (get_elem? q.stopping k) q
