-- ===== src/Scheduler/Adding.antt =====
-- internal/scheduler/scheduler.go: what `AddJob` has done where it gives no error.
use ar_csent.Prelude.{
  ℕ, ◌≡◌, refl, inl, inr, Bool-cases, Option, none, some, is_empty, ℤ, false, arith,
}
use ar_csent.Api.{Result, ok, err}
use ar_csent.Dict.{get, set}
use ar_csent.Scheduler.{Job, Scheduler, new_job, add_new, add_parsed, add_job}
use ar_csent.Scheduler.Jobs.{JobConfig, Spec, Parsers, normalize, parse_schedule}
use ar_csent.Scheduler.State.{StateStore, load_state}

module _ {S B : Type 0} (p : Parsers) (io : StateStore S B) where
  -- The scheduler with one more job, under a name that was free.
  pub record Added (cfg : JobConfig ℤ) (now : ℕ) (s t : Scheduler S) : Type 0 where
    pub spec : Spec
    pub parsed : parse_schedule p cfg.schedule ≡ ok spec
    pub named : is_empty cfg.name ≡ false
    pub has_plugin : is_empty cfg.plugin ≡ false
    pub free : get cfg.name s.jobs ≡ none
    pub jobs :
        t.jobs
        ≡ set cfg.name (new_job (normalize cfg) spec (load_state io s.store cfg.name) now) s.jobs
    pub store : t.store ≡ s.store

  module _ (cfg : JobConfig ℤ) (now : ℕ) (s t : Scheduler S) where
    if_free :
        (spec : Spec) (o : Option Job)
        → parse_schedule p cfg.schedule ≡ ok spec
        → is_empty cfg.name ≡ false
        → is_empty cfg.plugin ≡ false
        → get cfg.name s.jobs ≡ o
        → add_new p io (normalize cfg) spec now s o ≡ ok t
        → Added cfg now s t
    unfolding normalize
    if_free spec none parsed named has_plugin free h = record {
      spec = spec;
      parsed = parsed;
      named = named;
      has_plugin = has_plugin;
      free = free;
      jobs = cc;
      store = cc;
    }
    if_free spec (some old) parsed named has_plugin free h = absurd (cc)

    if_parsed :
        (r : Result Spec)
        → parse_schedule p cfg.schedule ≡ r
        → is_empty cfg.name ≡ false
        → is_empty cfg.plugin ≡ false
        → add_parsed p io cfg now s r ≡ ok t
        → Added cfg now s t
    if_parsed (ok spec) parsed named has_plugin h =
        if_free spec (get cfg.name s.jobs) parsed named has_plugin refl h
    if_parsed (err message) parsed named has_plugin h = absurd (cc)

    pub add_job-Added : add_job p io cfg now s ≡ ok t → Added cfg now s t
    unfolding add_job
    add_job-Added h = elim (Bool-cases (is_empty cfg.name)) [
      | inl nameless ↦ absurd (ground arith)
      | inr named ↦ elim (Bool-cases (is_empty cfg.plugin)) [
        | inl no_plugin ↦ absurd (ground arith)
        | inr has_plugin ↦
            if_parsed (parse_schedule p cfg.schedule) refl named has_plugin (ground arith)
      ]
    ]
