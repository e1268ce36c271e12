-- ===== src/Scheduler/Lifecycle.antt =====
-- internal/scheduler/scheduler.go: sequences of calls that add, start, stop and replace jobs.
use ar_csent.Prelude.{
  ℕ, ◌≡◌, refl, Bool, true, false, Option, none, some, List, [], ◌∷◌, All, ℤ, arith,
}
use ar_csent.Text.{Text}
use ar_csent.Api.{Result, ok, err}
use ar_csent.Dict.{Dict}
use ar_csent.Scheduler.{Job, Scheduler, start_all, stop_all, add_job, replace_jobs}
use ar_csent.Scheduler.Adding.{add_job-Added}
use ar_csent.Scheduler.Flags.{AllOpen, start_all-AllOpen, stop_all-some}
use ar_csent.Scheduler.Jobs.{JobConfig, Parsers}
use ar_csent.Scheduler.Reload.{add_job-AllOpen, replace_jobs-Reloaded}
use ar_csent.Scheduler.State.{StateStore}

-- A call of a method of the scheduler, at a time where it matters.
pub data Call : Type 0 where
  add : JobConfig ℤ → ℕ → Call
  start : Call
  stop : Call
  replace : List (JobConfig ℤ) → ℕ → Call

abbrev pub is_stop : Call → Bool
is_stop (add cfg now) = false
is_stop start = false
is_stop stop = true
is_stop (replace configs now) = false

-- The calls end without a panic, in a scheduler none of whose jobs is stopped.
abbrev pub Lives : {S : Type 0} → Option (Scheduler S) → Type 0
Lives none = ⊥
Lives (some s) = AllOpen s.jobs

module _ {S B : Type 0} (p : Parsers) (io : StateStore S B) where
  abbrev or_same : Scheduler S → Result (Scheduler S) → Scheduler S
  or_same s (err message) = s
  or_same s (ok t) = t

  abbrev with_jobs : Scheduler S → Option (Dict Job) → Option (Scheduler S)
  with_jobs s none = none
  with_jobs s (some jobs) = some (record s { jobs = jobs })

  abbrev replaced_by : Option (Option Text × Scheduler S) → Option (Scheduler S)
  replaced_by none = none
  replaced_by (some (e, t)) = some t

  -- The scheduler after a call; `none` is a panic.
  unfoldable pub call : Call → Scheduler S → Option (Scheduler S)
  unfolding add_job start_all stop_all replace_jobs
  call (add cfg now) s = some (or_same s (add_job p io cfg now s))
  call start s = some (record s { jobs = start_all s.jobs })
  call stop s = with_jobs s (stop_all s.jobs)
  call (replace configs now) s = replaced_by (replace_jobs p io configs now s)

  abbrev and_then :
      Option (Scheduler S) → (Scheduler S → Option (Scheduler S)) → Option (Scheduler S)
  and_then none k = none
  and_then (some s) k = k s

  unfoldable pub call_all : List Call → Scheduler S → Option (Scheduler S)
  unfolding call
  call_all [] s = some s
  call_all (c ∷ calls) s = and_then (call c s) (call_all calls)

  add_job-Lives :
      (cfg : JobConfig ℤ) (now : ℕ) (s : Scheduler S) (r : Result (Scheduler S))
      → add_job p io cfg now s ≡ r
      → AllOpen s.jobs
      → AllOpen (or_same s r).jobs
  add_job-Lives cfg now s (err message) same h = h
  add_job-Lives cfg now s (ok t) same h =
      add_job-AllOpen p io now cfg s t (add_job-Added p io cfg now s t same) h

  call-Lives : (c : Call) (s : Scheduler S) → is_stop c ≡ false → AllOpen s.jobs → Lives (call c s)
  unfolding call
  call-Lives (add cfg now) s other h = add_job-Lives cfg now s (add_job p io cfg now s) refl h
  call-Lives start s other h = start_all-AllOpen s.jobs h
  call-Lives stop s other h = absurd (cc)
  call-Lives (replace configs now) s other h =
      let r = replace_jobs-Reloaded p io now configs s h in rw r.1 r.3

  -- `AddJob`, `Start` and `ReplaceJobs` in any sequence, from a scheduler on that has no stopped job,
  -- as the new one, never panic, and leave no job stopped.
  pub call_all-Lives :
      (calls : List Call) (s : Scheduler S)
      → All (λ c. is_stop c ≡ false) calls
      → AllOpen s.jobs
      → Lives (call_all calls s)
  unfolding call_all
  call_all-Lives [] s others h = h
  call_all-Lives (c ∷ calls) s others h =
      after (call c s) (call-Lives c s others.0 h) (λ t. call_all-Lives calls t others.1)
    where
      after :
          (o : Option (Scheduler S))
          → Lives o
          → ((t : Scheduler S) → AllOpen t.jobs → Lives (call_all calls t))
          → Lives (and_then o (call_all calls))
      after none l rest = l
      after (some t) l rest = rest t l

  -- A scheduler that has a job, and none of whose jobs is stopped, panics at the second `Stop` of
  -- `Start`, `Stop`, `Start`, `Stop`: `Start` gives a stopped job no new channel.
  pub call_all-stopped_again :
      (name : Text) (j : Job) (jobs : Dict Job) (store : Option S)
      → AllOpen ((name, j) ∷ jobs)
      → call_all
          (start ∷ stop ∷ start ∷ stop ∷ [])
          (record { jobs = (name, j) ∷ jobs; store = store })
        ≡ none
  unfolding call_all start_all stop_all
  call_all-stopped_again name j jobs store h =
      let rest = stop_all-some (start_all jobs) (start_all-AllOpen jobs h.1) in
      rw rest.1 (ground arith)
