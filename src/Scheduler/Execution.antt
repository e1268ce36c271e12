-- ===== src/Scheduler/Execution.antt =====
-- internal/scheduler/scheduler.go, `executeJob`: an execution of a job that no other execution
-- overlaps, from its attempts to its new state and the result that it hands on.
use ar_csent.Prelude.{ℕ, Option, none, some, List, [], ◌∷◌}
use ar_csent.Text.{codes}
use ar_csent.Api.{Result, ok, err}
use ar_csent.Results.{ScanResult}
use ar_csent.Scheduler.Jobs.{JobConfig}
use ar_csent.Scheduler.Attempts.{Attempt, execute_with_retry}
use ar_csent.Scheduler.State.{JobState, StateStore, update_state, save_state}

-- `published` is the result that `onResult` is called with.
pub record Executed (S J : Type 0) : Type 0 where
  pub state : JobState
  pub store : Option S
  pub published : Option (ScanResult ℕ J)

-- An execution as the scheduler meets it: its attempts, and when its state is updated.
pub record Occasion (J : Type 0) : Type 0 where
  pub run : ℕ → Attempt (ScanResult ℕ J)
  pub updated : ℕ

module _ {S B J : Type 0} (io : StateStore S B) (cfg : JobConfig ℕ) where
  abbrev updated_to : Option S → Option (ScanResult ℕ J) → JobState → Executed S J
  updated_to store published s = record {
    state = s;
    store = save_state io cfg.name s store;
    published = published;
  }

  abbrev after_retries : ℕ → JobState → Option S → Result (ScanResult ℕ J) → Executed S J
  after_retries now s store (err message) =
      updated_to store none (update_state now (codes "failed") (some message) s)
  after_retries now s store (ok res) =
      updated_to store (some res) (update_state now res.status none s)

  -- `executeJob`, after `running` is taken. `executeWithRetry` gives an error or a result, so the
  -- branch for neither is never reached.
  unfoldable pub execute_job : Occasion J → JobState → Option S → Executed S J
  unfolding update_state save_state execute_with_retry
  execute_job o s store = after_retries o.updated s store (execute_with_retry o.run cfg).result

  -- Executions in their order, each with the state and the store that the one before left.
  unfoldable pub execute_all : List (Occasion J) → JobState → Option S → JobState × Option S
  unfolding execute_job
  execute_all [] s store = (s, store)
  execute_all (o ∷ occasions) s store =
      let e = execute_job o s store in execute_all occasions e.state e.store
