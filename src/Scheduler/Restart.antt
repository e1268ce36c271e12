-- ===== src/Scheduler/Restart.antt =====
-- internal/scheduler/scheduler.go: a job's state over a restart of the program.
use ar_csent.Prelude.{
  ℕ, ◌+◌, ◌^◌, ◌<◌, ◌≡◌, ◌≢◌, refl, sym, ◌∙◌, ap, Option, none, some, List, [], ◌∷◌, ◌++◌, map,
  length, length-map, length-append, ℤ, arith,
}
use ar_csent.Text.{Text, codes}
use ar_csent.Api.{Result, ok, err}
use ar_csent.Results.{ScanResult}
use ar_csent.Dict.{get}
use ar_csent.Dict.Laws.{get-set_self}
use ar_csent.Scheduler.{Job, Scheduler, new_job, add_job}
use ar_csent.Scheduler.Adding.{add_job-Added}
use ar_csent.Scheduler.Jobs.{JobConfig, Parsers, normalize}
use ar_csent.Scheduler.Attempts.{execute_with_retry}
use ar_csent.Scheduler.State.{
  JobState, no_state, StateStore, IsFaithful, RoundTrips, put_encoded, update_state, load_state,
  save_state,
}
use ar_csent.Scheduler.Failures.{Run, Reports, update_all, update_all-Reports, update_all-append}
use ar_csent.Scheduler.Execution.{Occasion, execute_job, execute_all}

module _ {S B : Type 0} (io : StateStore S B) (name : Text) where
  -- There is a store, and it has this state for the job.
  abbrev Remembers : Option S → JobState → Type 0
  Remembers store s = (st : S) × (store ≡ some st) × (load_state io store name ≡ s)

  load-save_self :
      IsFaithful io
      → name ≢ []
      → (s : JobState) (st : S) → RoundTrips io s
      → Remembers (save_state io name s (some st)) s
  unfolding load_state save_state
  load-save_self faithful named s st e = rw e.encoded (
    io.put_state name e.bytes st,
    refl,
    rw (faithful.get-put_self name e.bytes st named) (rw e.decoded_back refl),
  )

  load-save_of_eq :
      IsFaithful io
      → name ≢ []
      → (s : JobState) (store : Option S) (st : S) → store ≡ some st
      → RoundTrips io s
      → Remembers (save_state io name s store) s
  load-save_of_eq faithful named s store st present e =
      rw present (load-save_self faithful named s st e)

  -- A state that is not encoded leaves the store as it is.
  load-save_ne :
      IsFaithful io
      → (s : JobState) (store : Option S) (other : Text) → name ≢ other
      → load_state io (save_state io name s store) other ≡ load_state io store other
  unfolding load_state save_state
  load-save_ne faithful s none other differs = refl
  load-save_ne faithful s (some st) other differs = put_encoded_ne (io.encode s)
    where
      put_encoded_ne :
          (e : Option B)
          → load_state io (some (put_encoded io name e st)) other ≡ load_state io (some st) other
      put_encoded_ne none = refl
      put_encoded_ne (some b) = rw (faithful.get-put_ne name other b st differs) refl

  -- A store stays a store.
  save_state-some :
      (s : JobState) (st : S) → (st' : S) × (save_state io name s (some st) ≡ some st')
  unfolding save_state
  save_state-some s st = (put_encoded io name (io.encode s) st, refl)

module _ {J : Type 0} (cfg : JobConfig ℕ) where
  abbrev run_with : ℕ → Result (ScanResult ℕ J) → Run
  run_with now (err message) = record { at = now; status = codes "failed"; error = some message }
  run_with now (ok res) = record { at = now; status = res.status; error = none }

  -- An execution, as a job's state tells of it.
  abbrev pub run_of : Occasion J → Run
  run_of o = run_with o.updated (execute_with_retry o.run cfg).result

module _ {S B J : Type 0} (io : StateStore S B) (cfg : JobConfig ℕ) where
  state-execute_job :
      (o : Occasion J) (s : JobState) (store : Option S)
      → (execute_job io cfg o s store).state
        ≡ update_state (run_of cfg o).at (run_of cfg o).status (run_of cfg o).error s
  unfolding execute_job
  state-execute_job o s store = ground arith

  store-execute_job :
      (o : Occasion J) (s : JobState) (store : Option S)
      → (execute_job io cfg o s store).store
        ≡ save_state io cfg.name (execute_job io cfg o s store).state store
  unfolding execute_job
  store-execute_job o s store = ground arith

  state-execute_all :
      (occasions : List (Occasion J)) (s : JobState) (store : Option S)
      → (execute_all io cfg occasions s store).0 ≡ update_all (map (run_of cfg) occasions) s
  unfolding execute_all
  state-execute_all [] s store = refl
  state-execute_all (o ∷ occasions) s store =
      state-execute_all occasions _ _
      ∙ ap (update_all (map (run_of cfg) occasions)) (state-execute_job o s store)

  module _ (faithful : IsFaithful io) (named : cfg.name ≢ []) where
    -- Only the state that the last execution leaves has to survive its encoding.
    execute_all-Remembers_from :
        (o : Occasion J) (occasions : List (Occasion J)) (s : JobState) (store : Option S) (st : S)
        → store ≡ some st
        → RoundTrips io (execute_all io cfg (o ∷ occasions) s store).0
        → Remembers io cfg.name
            (execute_all io cfg (o ∷ occasions) s store).1
            (execute_all io cfg (o ∷ occasions) s store).0
    unfolding execute_all
    execute_all-Remembers_from o [] s store st present e =
        rw (store-execute_job o s store)
          (load-save_of_eq io cfg.name faithful named _ store st present e)
    execute_all-Remembers_from o (next ∷ occasions) s store st present e =
        let after = save_state-some io cfg.name (execute_job io cfg o s store).state st in
        execute_all-Remembers_from next occasions (execute_job io cfg o s store).state
          (execute_job io cfg o s store).store after.0
          (store-execute_job o s store
            ∙ ap (save_state io cfg.name (execute_job io cfg o s store).state) present
            ∙ after.1)
          e

    execute_all-Remembers :
        (occasions : List (Occasion J)) (s : JobState) (st : S)
        → RoundTrips io (execute_all io cfg occasions s (some st)).0
        → load_state io (some st) cfg.name ≡ s
        → Remembers io cfg.name
            (execute_all io cfg occasions s (some st)).1
            (execute_all io cfg occasions s (some st)).0
    execute_all-Remembers [] s st e h = unfold execute_all in (st, refl, h)
    execute_all-Remembers (o ∷ occasions) s st e h =
        execute_all-Remembers_from o occasions s (some st) st refl e

    execute_all-others :
        (occasions : List (Occasion J)) (s : JobState) (store : Option S) (other : Text)
        → cfg.name ≢ other
        → load_state io (execute_all io cfg occasions s store).1 other ≡ load_state io store other
    unfolding execute_all
    execute_all-others [] s store other differs = refl
    execute_all-others (o ∷ occasions) s store other differs =
        execute_all-others occasions _ _ other differs
        ∙ ap (λ st. load_state io st other) (store-execute_job o s store)
        ∙ load-save_ne io cfg.name faithful _ store other differs

module _ {S B J : Type 0} (p : Parsers) (io : StateStore S B) where
  -- With a store that works: let the store's state for a job be the one that any executions left, none
  -- for a new job. If the job is then executed, fewer than 2 ^ 63 times in all, the state after that
  -- survives its encoding, and a scheduler on the store as it is then adds a job of this name, then the
  -- new job has the state that the executions left, which reports all of them, the earlier ones too,
  -- and jobs of another name would still load the states that they had before.
  pub add_job-resumes :
      IsFaithful io
      → (cfg : JobConfig ℤ) (now : ℕ) (past : List Run) (occasions : List (Occasion J)) (st : S)
        (s t : Scheduler S)
      → length past + length occasions < 2 ^ 63
      → load_state io (some st) cfg.name ≡ update_all past no_state
      → RoundTrips io
          (execute_all io (normalize cfg) occasions (update_all past no_state) (some st)).0
      → s.store ≡ (execute_all io (normalize cfg) occasions (update_all past no_state) (some st)).1
      → add_job p io cfg now s ≡ ok t
      → (j : Job) × (get cfg.name t.jobs ≡ some j)
        × (j.state
            ≡ (execute_all io (normalize cfg) occasions (update_all past no_state) (some st)).0)
        × Reports (past ++ map (run_of (normalize cfg)) occasions) j.state
        × ((other : Text)
            → cfg.name ≢ other
            → load_state io t.store other ≡ load_state io (some st) other)
  unfolding normalize
  add_job-resumes faithful cfg now past occasions st s t fits earlier encodes store h =
      let a = add_job-Added p io cfg now s t h in
      let named : cfg.name ≢ [] = λ e. ground (arith, a.named) in
      let before = update_all past no_state in
      let job = new_job (normalize cfg) a.spec (load_state io s.store cfg.name) now in
      let runs = map (run_of (normalize cfg)) occasions in
      let kept : job.state ≡ (execute_all io (normalize cfg) occasions before (some st)).0 =
        ap (λ x. load_state io x cfg.name) store
        ∙ (execute_all-Remembers io (normalize cfg) faithful named occasions before st encodes
            earlier).2 in
      let replayed =
        kept
        ∙ state-execute_all io (normalize cfg) occasions before (some st)
        ∙ sym (update_all-append past runs no_state) in
      (
        job,
        ap (get cfg.name) a.jobs ∙ get-set_self cfg.name job s.jobs,
        kept,
        rw replayed (
            update_all-Reports (past ++ runs) (
              omega (
                arith,
                length-append past runs,
                length-map (run_of (normalize cfg)) occasions,
                fits,
              ))),
        λ other differs.
            ap (λ x. load_state io x other) (a.store ∙ store)
            ∙ execute_all-others io (normalize cfg) faithful named occasions before (some st) other
                differs,
      )
