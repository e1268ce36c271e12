-- ===== src/Examples/Scheduler.antt =====
-- A scheduler with a store that is a dictionary of states.
use ar_csent.Prelude.{
  ℕ, ◌+◌, ◌≤◌, ◌<◌, ◌≡◌, ◌≢◌, refl, false, true, Option, none, some, List, [], ◌∷◌, ◌++◌, map, ℤ,
  pos, ltb, if◌then◌else◌, arith,
}
use ar_csent.Text.{Text, codes, text_eq}
use ar_csent.Text.Equality.{text_eq_iff}
use ar_csent.Dict.{Dict, get, set}
use ar_csent.Dict.Laws.{get-set, get-set_self}
use ar_csent.Results.{ScanResult}
use ar_csent.Scheduler.{Job, Scheduler, new_job, add_job, replace_jobs}
use ar_csent.Scheduler.Jobs.{
  JobConfig, interval, Parsers, normalize, parse_schedule, compute_next_run,
}
use ar_csent.Scheduler.Attempts.{Attempt, done, failed, no_result, execute_with_retry}
use ar_csent.Scheduler.State.{JobState, no_state, StateStore, IsFaithful, RoundTrips, load_state}
use ar_csent.Scheduler.NextRun.{compute_next_run_bounds}
use ar_csent.Scheduler.Retries.{Decides, decided, execute_with_retry-decided}
use ar_csent.Scheduler.Failures.{Run, Reports, update_all}
use ar_csent.Scheduler.Execution.{Occasion, execute_all}
use ar_csent.Scheduler.Restart.{run_of, add_job-resumes}
use ar_csent.Scheduler.Flags.{AllOpen}
use ar_csent.Scheduler.Reload.{Reloaded, replace_jobs-Reloaded}
use ar_csent.Scheduler.Lifecycle.{
  add, start, stop, replace, call_all, Lives, call_all-Lives, call_all-stopped_again,
}
use ar_csent.Scheduler.Overlap.{
  Goroutines, waiting, executing, here, there, Steps, stay, step, take, skip, spawn, new_goroutines,
  count_executing, Steps-exclusive,
}
use ar_csent.Examples.Results.{result_of}

-- Stand-ins for the parsers and for the store.
abbrev parsers : Parsers
parsers = record {
  duration = λ t. if text_eq t (codes "5m") then some (pos 300) else none;
  cron = λ t. none;
  quote = λ t. t;
}

abbrev states : StateStore (Dict JobState) JobState
states = record { get_state = get; put_state = set; encode = λ s. some s; decode = λ s. some s }

get-set_ne :
    (name other : Text) (b : JobState) (s : Dict JobState)
    → name ≢ other
    → get other (set name b s) ≡ get other s
get-set_ne name other b s differs = ground (arith, get-set name other b s, text_eq_iff name other)

states-IsFaithful : IsFaithful states
states-IsFaithful = record {
  get-put_self = λ name b s named. get-set_self name b s;
  get-put_ne = get-set_ne;
}

states-RoundTrips : (s : JobState) → RoundTrips states s
states-RoundTrips s = record { bytes = s; encoded = refl; decoded_back = refl }

abbrev disk : JobConfig ℤ
disk = record {
  name = codes "disk";
  plugin = codes "system.disk";
  schedule = codes " @every 5m";
  timeout = pos 0;
  max_retries = pos 2;
  retry_backoff = pos 0;
  retry_max = pos 0;
  allow_overlap = false;
  run_on_start = true;
}

compute_next_run_bounds_example :
    (900 < compute_next_run (interval 300) 700 900)
    × (compute_next_run (interval 300) 700 900 ≤ 900 + 300)
    × (900 < 700 + 300 → compute_next_run (interval 300) 700 900 ≡ 700 + 300)
unfolding parse_schedule text_eq
compute_next_run_bounds_example =
    compute_next_run_bounds parsers (codes " @every 5m") 300 700 900 refl (omega arith)
      (omega arith)

-- The first attempt fails and the second one has a result.
abbrev attempts : ℕ → Attempt (ScanResult ℕ Unit)
attempts n = record {
  started = 10 + n;
  finished = 20 + n;
  outcome = if ltb 0 n then done (result_of (codes "disk") 1 []) else failed (codes "busy");
}

execute_with_retry-decided_example :
    (k : ℕ) × Decides attempts (normalize disk) 2 0 k k
    × (execute_with_retry attempts (normalize disk) ≡ decided attempts (normalize disk) 0 k k)
unfolding normalize
execute_with_retry-decided_example = execute_with_retry-decided attempts (normalize disk)

one_pause : (execute_with_retry attempts (normalize disk)).sleeps ≡ 2000000000 ∷ []
unfolding execute_with_retry normalize
one_pause = refl

abbrev runs : List Run
runs =
    record { at = 5; status = codes "success"; error = none }
    ∷ record { at = 7; status = codes "failed"; error = some (codes "busy") }
    ∷ record { at = 9; status = codes "failed"; error = some (codes "gone") }
    ∷ []

abbrev broken : ℕ → Attempt (ScanResult ℕ Unit)
broken n = record { started = 10 + n; finished = 20 + n; outcome = no_result }

abbrev occasions : List (Occasion Unit)
occasions = record { run = attempts; updated = 30 } ∷ record { run = broken; updated = 60 } ∷ []

-- The store as the runs above left it, and after two more executions.
abbrev kept : Dict JobState
kept = (codes "disk", update_all runs no_state) ∷ []

abbrev resumed : Scheduler (Dict JobState)
resumed = record {
  jobs = [];
  store = (execute_all states (normalize disk) occasions (update_all runs no_state) (some kept)).1;
}

abbrev restarted : Scheduler (Dict JobState)
restarted = record {
  jobs =
      (
        codes "disk",
        new_job (normalize disk) (interval 300) (load_state states resumed.store (codes "disk"))
            100,
      )
      ∷ [];
  store = resumed.store;
}

add_job-resumes_example :
    (j : Job) × (get (codes "disk") restarted.jobs ≡ some j)
    × (j.state
        ≡ (execute_all states (normalize disk) occasions (update_all runs no_state) (some kept)).0)
    × Reports (runs ++ map (run_of (normalize disk)) occasions) j.state
    × ((other : Text)
        → codes "disk" ≢ other
        → load_state states restarted.store other ≡ load_state states (some kept) other)
unfolding add_job text_eq
add_job-resumes_example =
    add_job-resumes parsers states states-IsFaithful disk 100 runs occasions kept resumed restarted
      (omega arith) (unfold load_state get in refl) (states-RoundTrips _) refl refl

-- The second job has a name that is taken.
abbrev reloaded : List (JobConfig ℤ)
reloaded = disk ∷ disk ∷ []

replace_jobs-Reloaded_example :
    (r : Option Text × Scheduler (Dict JobState)) × (replace_jobs parsers states reloaded 100
        restarted
      ≡ some r)
    × Reloaded parsers states 100 restarted.store reloaded r
    × AllOpen r.1.jobs
replace_jobs-Reloaded_example =
    replace_jobs-Reloaded parsers states 100 reloaded restarted (refl, tt)

call_all-Lives_example :
    Lives
      (call_all parsers states (add disk 100 ∷ start ∷ replace reloaded 200 ∷ start ∷ []) resumed)
call_all-Lives_example =
    call_all-Lives parsers states (add disk 100 ∷ start ∷ replace reloaded 200 ∷ start ∷ []) resumed
      (refl, (refl, (refl, (refl, tt)))) tt

call_all-stopped_again_example :
    call_all parsers states (start ∷ stop ∷ start ∷ stop ∷ []) restarted ≡ none
call_all-stopped_again_example =
    call_all-stopped_again parsers states (codes "disk")
      (new_job (normalize disk) (interval 300) (load_state states resumed.store (codes "disk")) 100)
      [] resumed.store (refl, tt)

-- Two goroutines, of which one executes and the other skips.
abbrev two : Goroutines
two = record { running = true; phases = waiting ∷ executing ∷ [] }

two-Steps : Steps false new_goroutines two
two-Steps =
    step
      (step (step (step (stay new_goroutines) (spawn false [])) (spawn false (waiting ∷ [])))
        (take refl (there waiting (here []))))
      (skip (waiting ∷ executing ∷ []) refl)

Steps-exclusive_example :
    (count_executing two.phases ≤ 1) × (two.running ≡ true → count_executing two.phases ≡ 1)
Steps-exclusive_example = Steps-exclusive two-Steps
