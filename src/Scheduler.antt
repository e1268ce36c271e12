-- ===== src/Scheduler.antt =====
-- internal/scheduler/scheduler.go: the scheduler's jobs, and how they are added, started, stopped and
-- replaced. A job's `stopped` says that its channel `stop` is closed. The lock is held in every
-- method. Go visits the jobs in any order; here it is that of their addition.
pub mod Jobs
pub mod Attempts
pub mod State
pub mod NextRun
pub mod Retries
pub mod Failures
pub mod Execution
pub mod Adding
pub mod Flags
pub mod Lifecycle
pub mod Restart
pub mod Overlap
pub mod Reload
use ar_csent.Prelude.{
  ℕ, Bool, true, false, Option, none, some, List, [], ◌∷◌, ◌++◌, map, is_empty, if◌then◌else◌, ℤ,
}
use ar_csent.Text.{Text, codes}
use ar_csent.Dict.{Dict, get, set}
use ar_csent.Api.{Result, ok, err, ◌>>=◌}
use ar_csent.Scheduler.Jobs.{JobConfig, Spec, Parsers, normalize, parse_schedule, compute_next_run}
use ar_csent.Scheduler.State.{JobState, StateStore, load_state}

pub record Job : Type 0 where
  pub cfg : JobConfig ℕ
  pub spec : Spec
  pub stopped : Bool
  pub running : Bool
  pub started : Bool
  pub state : JobState
  pub next_run : ℕ

pub record Scheduler (S : Type 0) : Type 0 where
  pub jobs : Dict Job
  pub store : Option S

unfoldable pub new_scheduler : {S : Type 0} → Option S → Scheduler S
new_scheduler store = record { jobs = []; store = store }

-- `ListJobs`, `JobState` and `NextRun`
unfoldable pub list_jobs : Dict Job → List (JobConfig ℕ)
list_jobs jobs = map (λ entry. entry.1.cfg) jobs

abbrev field_of {ℓ} : {A : Type ℓ} → (Job → A) → Option Job → Option A
field_of f none = none
field_of f (some j) = some (f j)

unfoldable pub job_state : Text → Dict Job → Option JobState
unfolding get
job_state name jobs = field_of (λ j. j.state) (get name jobs)

unfoldable pub next_run_of : Text → Dict Job → Option ℕ
unfolding get
next_run_of name jobs = field_of (λ j. j.next_run) (get name jobs)

abbrev pub new_job : JobConfig ℕ → Spec → JobState → ℕ → Job
new_job cfg spec state now = record {
  cfg = cfg;
  spec = spec;
  stopped = false;
  running = false;
  started = false;
  state = state;
  next_run = compute_next_run spec state.last_run now;
}

-- The job with its goroutine running, and closing its channel, which panics if it is closed.
abbrev pub start_job : Job → Job
start_job j = if j.started then j else record j { started = true }

abbrev pub stop_job : Job → Option Job
stop_job j =
    if j.started
    then (if j.stopped then none else some (record j { stopped = true; started = false }))
    else some j

-- `Start`
unfoldable pub start_all : Dict Job → Dict Job
start_all [] = []
start_all ((name, j) ∷ jobs) = (name, start_job j) ∷ start_all jobs

abbrev pub stopped_pair : Text → Option Job → Option (Dict Job) → Option (Dict Job)
stopped_pair name none rest = none
stopped_pair name (some j) none = none
stopped_pair name (some j) (some jobs) = some ((name, j) ∷ jobs)

-- `Stop`; `none` is a panic.
unfoldable pub stop_all : Dict Job → Option (Dict Job)
stop_all [] = some []
stop_all ((name, j) ∷ jobs) = stopped_pair name (stop_job j) (stop_all jobs)

module _ {S B : Type 0} (p : Parsers) (io : StateStore S B) where
  abbrev pub add_new : JobConfig ℕ → Spec → ℕ → Scheduler S → Option Job → Result (Scheduler S)
  add_new cfg spec now s none = ok (record s {
    jobs = set cfg.name (new_job cfg spec (load_state io s.store cfg.name) now) s.jobs;
  })
  add_new cfg spec now s (some old) =
      err (codes "job " ++ (p.quote cfg.name ++ codes " already exists"))

  abbrev pub add_parsed : JobConfig ℤ → ℕ → Scheduler S → Result Spec → Result (Scheduler S)
  add_parsed cfg now s (err message) = err message
  add_parsed cfg now s (ok spec) = add_new (normalize cfg) spec now s (get cfg.name s.jobs)

  -- `AddJob`
  unfoldable pub add_job : JobConfig ℤ → ℕ → Scheduler S → Result (Scheduler S)
  unfolding normalize parse_schedule compute_next_run load_state get set
  add_job cfg now s =
      if is_empty cfg.name
      then err (codes "job name is required")
      else if is_empty cfg.plugin
      then err (codes "job plugin is required")
      else add_parsed cfg now s (parse_schedule p cfg.schedule)

  -- The loop of `ReplaceJobs`: the error that ends it, and the scheduler as it is then.
  abbrev pub after_add :
      Scheduler S
      → Result (Scheduler S)
      → (Scheduler S → Option Text × Scheduler S)
      → Option Text × Scheduler S
  after_add s (err message) rest = (some message, s)
  after_add s (ok s') rest = rest s'

  unfoldable pub add_jobs : List (JobConfig ℤ) → ℕ → Scheduler S → Option Text × Scheduler S
  unfolding add_job
  add_jobs [] now s = (none, s)
  add_jobs (cfg ∷ configs) now s = after_add s (add_job cfg now s) (add_jobs configs now)

  abbrev pub start_if_added : Option Text × Scheduler S → Option Text × Scheduler S
  start_if_added (none, s) = (none, record s { jobs = start_all s.jobs })
  start_if_added (some message, s) = (some message, s)

  abbrev pub replaced :
      List (JobConfig ℤ) → ℕ → Option S → Option (Dict Job) → Option (Option Text × Scheduler S)
  replaced configs now store none = none
  replaced configs now store (some old) =
      some (start_if_added (add_jobs configs now (record { jobs = []; store = store })))

  -- `ReplaceJobs`: all old jobs are stopped and forgotten before the first new one is added; the
  -- new ones are started if all were added. `none` is a panic.
  unfoldable pub replace_jobs :
      List (JobConfig ℤ) → ℕ → Scheduler S → Option (Option Text × Scheduler S)
  unfolding stop_all start_all add_jobs
  replace_jobs configs now s = replaced configs now s.store (stop_all s.jobs)
