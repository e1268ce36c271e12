-- ===== src/Scheduler/Reload.antt =====
-- internal/scheduler/scheduler.go, `ReplaceJobs`: the jobs after a reload of the configuration.
use ar_csent.Prelude.{
  ℕ, ◌≡◌, refl, ◌∙◌, ap, Bool, true, false, Option, none, some, List, [], ◌∷◌, ◌++◌, append_assoc,
  append-nil, ℤ, arith,
}
use ar_csent.Text.{Text}
use ar_csent.Dict.{Dict, get, set}
use ar_csent.Api.{Result, ok, err}
use ar_csent.Scheduler.{
  Job, Scheduler, new_job, start_job, start_all, add_job, add_jobs, after_add, start_if_added,
  replaced, replace_jobs,
}
use ar_csent.Scheduler.Adding.{Added, add_job-Added}
use ar_csent.Scheduler.Flags.{AllOpen, set-AllOpen, stop_all-some}
use ar_csent.Scheduler.Jobs.{JobConfig, Parsers, normalize, parse_schedule, compute_next_run}
use ar_csent.Scheduler.State.{StateStore, load_state}

module _ {S B : Type 0} (p : Parsers) (io : StateStore S B) (now : ℕ) (store : Option S) where
  -- A new job of a configuration, with its goroutine or without: all that it is configured with, its
  -- schedule, the state that the store has for its name, and the time of its next run.
  pub record IsJobOf (started : Bool) (cfg : JobConfig ℤ) (name : Text) (j : Job) : Type 0 where
    pub named : name ≡ cfg.name
    pub same_name : j.cfg.name ≡ cfg.name
    pub same_plugin : j.cfg.plugin ≡ cfg.plugin
    pub same_overlap : j.cfg.allow_overlap ≡ cfg.allow_overlap
    pub same_start : j.cfg.run_on_start ≡ cfg.run_on_start
    pub configured : j.cfg ≡ normalize cfg
    pub scheduled : parse_schedule p cfg.schedule ≡ ok j.spec
    pub loaded : j.state ≡ load_state io store cfg.name
    pub due : j.next_run ≡ compute_next_run j.spec (load_state io store cfg.name).last_run now
    pub idle : j.running ≡ false
    pub unclosed : j.stopped ≡ false
    pub runs : j.started ≡ started

  -- One new job for each configuration, in their order, and no other job.
  abbrev pub AllJobsOf : Bool → List (JobConfig ℤ) → Dict Job → Type 0
  AllJobsOf started [] [] = Unit
  AllJobsOf started [] (entry ∷ jobs) = ⊥
  AllJobsOf started (cfg ∷ configs) [] = ⊥
  AllJobsOf started (cfg ∷ configs) ((name, j) ∷ jobs) =
      IsJobOf started cfg name j × AllJobsOf started configs jobs

  set-AllJobsOf :
      (started : Bool) (cfg : JobConfig ℤ) (j : Job) (before : List (JobConfig ℤ)) (jobs : Dict Job)
      → get cfg.name jobs ≡ none
      → IsJobOf started cfg cfg.name j
      → AllJobsOf started before jobs
      → AllJobsOf started (before ++ cfg ∷ []) (set cfg.name j jobs)
  unfolding get set
  set-AllJobsOf started cfg j [] [] free new h = (new, tt)
  set-AllJobsOf started cfg j [] (entry ∷ jobs) free new h = absurd h
  set-AllJobsOf started cfg j (c ∷ before) [] free new h = absurd h
  set-AllJobsOf started cfg j (c ∷ before) ((name, k) ∷ jobs) free new h =
      ground (arith, set-AllJobsOf started cfg j before jobs)

  start_job-IsJobOf :
      (cfg : JobConfig ℤ) (name : Text) (j : Job)
      → IsJobOf false cfg name j
      → IsJobOf true cfg name (start_job j)
  start_job-IsJobOf cfg name j h = rw h.runs (record {
    named = h.named;
    same_name = h.same_name;
    same_plugin = h.same_plugin;
    same_overlap = h.same_overlap;
    same_start = h.same_start;
    configured = h.configured;
    scheduled = h.scheduled;
    loaded = h.loaded;
    due = h.due;
    idle = h.idle;
    unclosed = h.unclosed;
    runs = refl;
  })

  start_all-AllJobsOf :
      (configs : List (JobConfig ℤ)) (jobs : Dict Job)
      → AllJobsOf false configs jobs
      → AllJobsOf true configs (start_all jobs)
  unfolding start_all
  start_all-AllJobsOf [] [] h = tt
  start_all-AllJobsOf [] (entry ∷ jobs) h = absurd h
  start_all-AllJobsOf (cfg ∷ configs) [] h = absurd h
  start_all-AllJobsOf (cfg ∷ configs) ((name, j) ∷ jobs) h =
      (start_job-IsJobOf cfg name j h.0, start_all-AllJobsOf configs jobs h.1)

  -- The scheduler while the new jobs are added: those of some configurations, none of them started.
  pub record Installed (before : List (JobConfig ℤ)) (s : Scheduler S) : Type 0 where
    pub jobs : AllJobsOf false before s.jobs
    pub same_store : s.store ≡ store

  add_job-Installed :
      (cfg : JobConfig ℤ) (before : List (JobConfig ℤ)) (s t : Scheduler S)
      → Added p io cfg now s t
      → Installed before s
      → Installed (before ++ cfg ∷ []) t
  add_job-Installed cfg before s t a h =
      let loaded : load_state io s.store cfg.name ≡ load_state io store cfg.name =
        ap (λ x. load_state io x cfg.name) h.same_store in
      let job = new_job (normalize cfg) a.spec (load_state io s.store cfg.name) now in
      record {
        jobs = rw a.jobs (
            set-AllJobsOf false cfg job before s.jobs a.free
              (record {
                named = refl;
                same_name = unfold normalize in refl;
                same_plugin = unfold normalize in refl;
                same_overlap = unfold normalize in refl;
                same_start = unfold normalize in refl;
                configured = refl;
                scheduled = a.parsed;
                loaded = loaded;
                due = ap (λ x. compute_next_run a.spec x.last_run now) loaded;
                idle = refl;
                unclosed = refl;
                runs = refl;
              })
              h.jobs);
        same_store = a.store ∙ h.same_store;
      }

  -- The configurations up to the first one that is refused, with the error that refuses it: there are
  -- the jobs of those before it, none of them started.
  pub record Refused (configs : List (JobConfig ℤ)) (t : Scheduler S) (message : Text)
      : Type 0 where
    pub before : List (JobConfig ℤ)
    pub bad : JobConfig ℤ
    pub after : List (JobConfig ℤ)
    pub parts : configs ≡ before ++ bad ∷ after
    pub refused : add_job p io bad now t ≡ err message
    pub kept : AllJobsOf false before t.jobs

  abbrev Outcome : List (JobConfig ℤ) → Option Text × Scheduler S → Type 0
  Outcome configs (none, t) = AllJobsOf false configs t.jobs
  Outcome configs (some message, t) = Refused configs t message

  after_add-Outcome :
      (cfg : JobConfig ℤ) (before configs : List (JobConfig ℤ)) (s : Scheduler S)
      (r : Result (Scheduler S))
      → add_job p io cfg now s ≡ r
      → Installed before s
      → ((t : Scheduler S)
          → Installed (before ++ cfg ∷ []) t
          → Outcome ((before ++ cfg ∷ []) ++ configs) (add_jobs p io configs now t))
      → Outcome (before ++ cfg ∷ configs) (after_add p io s r (add_jobs p io configs now))
  after_add-Outcome cfg before configs s (err message) same h rest = record {
    before = before;
    bad = cfg;
    after = configs;
    parts = refl;
    refused = same;
    kept = h.jobs;
  }
  after_add-Outcome cfg before configs s (ok t) same h rest =
      let regroup : (before ++ cfg ∷ []) ++ configs ≡ before ++ cfg ∷ configs =
        append_assoc before (cfg ∷ []) configs in
      rw (← regroup)
        (rest t (add_job-Installed cfg before s t (add_job-Added p io cfg now s t same) h))

  add_jobs-Outcome :
      (before configs : List (JobConfig ℤ)) (s : Scheduler S)
      → Installed before s
      → Outcome (before ++ configs) (add_jobs p io configs now s)
  unfolding add_jobs
  add_jobs-Outcome before [] s h = rw (append-nil before) h.jobs
  add_jobs-Outcome before (cfg ∷ configs) s h =
      after_add-Outcome cfg before configs s (add_job p io cfg now s) refl h
        (λ t. add_jobs-Outcome (before ++ cfg ∷ []) configs t)

  -- The jobs after a reload. With no error: one for each configuration, in their order, and all are
  -- started. With an error: none is started, and there is one for each configuration before the
  -- first one that `AddJob` refuses.
  abbrev pub Reloaded : List (JobConfig ℤ) → Option Text × Scheduler S → Type 0
  Reloaded configs (none, t) = AllJobsOf true configs t.jobs
  Reloaded configs (some message, t) = Refused configs t message

  started-Reloaded :
      (configs : List (JobConfig ℤ)) (r : Option Text × Scheduler S)
      → Outcome configs r
      → Reloaded configs (start_if_added p io r)
  started-Reloaded configs (none, t) o = start_all-AllJobsOf configs t.jobs o
  started-Reloaded configs (some message, t) o = o

  AllJobsOf-AllOpen :
      (started : Bool) (configs : List (JobConfig ℤ)) (jobs : Dict Job)
      → AllJobsOf started configs jobs
      → AllOpen jobs
  AllJobsOf-AllOpen started [] [] h = tt
  AllJobsOf-AllOpen started [] (entry ∷ jobs) h = absurd h
  AllJobsOf-AllOpen started (cfg ∷ configs) [] h = absurd h
  AllJobsOf-AllOpen started (cfg ∷ configs) ((name, j) ∷ jobs) h =
      (h.0.unclosed, AllJobsOf-AllOpen started configs jobs h.1)

  Reloaded-AllOpen :
      (configs : List (JobConfig ℤ)) (r : Option Text × Scheduler S)
      → Reloaded configs r
      → AllOpen r.1.jobs
  Reloaded-AllOpen configs (none, t) h = AllJobsOf-AllOpen true configs t.jobs h
  Reloaded-AllOpen configs (some message, t) h = AllJobsOf-AllOpen false h.before t.jobs h.kept

module _ {S B : Type 0} (p : Parsers) (io : StateStore S B) (now : ℕ) where
  pub add_job-AllOpen :
      (cfg : JobConfig ℤ) (s t : Scheduler S)
      → Added p io cfg now s t
      → AllOpen s.jobs
      → AllOpen t.jobs
  add_job-AllOpen cfg s t a h = rw a.jobs (set-AllOpen cfg.name _ s.jobs refl h)

  -- If no job's channel is closed, `ReplaceJobs` does not panic, and then again no job's channel is
  -- closed. With no error there is one job for each of the new configurations, in their order, with
  -- that configuration, its schedule, the state that the store has for its name and the next run that
  -- follows from these, and all are started. With an error none is started, and there are such jobs
  -- for the configurations before the first one that `AddJob` refuses with this error. In neither
  -- case is an old job left.
  pub replace_jobs-Reloaded :
      (configs : List (JobConfig ℤ)) (s : Scheduler S)
      → AllOpen s.jobs
      → (r : Option Text × Scheduler S) × (replace_jobs p io configs now s ≡ some r)
        × Reloaded p io now s.store configs r
        × AllOpen r.1.jobs
  unfolding replace_jobs
  replace_jobs-Reloaded configs s open_jobs =
      let fresh : Scheduler S = record { jobs = []; store = s.store } in
      let r = start_if_added p io (add_jobs p io configs now fresh) in
      let reloaded : Reloaded p io now s.store configs r =
        started-Reloaded p io now s.store configs (add_jobs p io configs now fresh) (
          add_jobs-Outcome p io now s.store [] configs fresh
            (record { jobs = tt; same_store = refl })) in
      (
        r,
        ap (replaced p io configs now s.store) (stop_all-some s.jobs open_jobs).1,
        reloaded,
        Reloaded-AllOpen p io now s.store configs r reloaded,
      )
