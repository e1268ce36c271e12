-- ===== src/Server/Handlers.antt =====
-- internal/api/server.go: the handlers that only read the daemon's state, and the one that updates the
-- signatures. A part of the daemon that may be missing is an `Option`; what a call of another package
-- returns is a result, with an error's message. The forms of encoding/json and encoding/csv, and those
-- of fmt and of the package time that the exports use, are the record `Forms`.
use ar_csent.Prelude.{
  ℕ, Bool, Option, none, some, List, [], ◌∷◌, map, length, if◌then◌else◌, ℤ, pos,
}
use ar_csent.Text.{Text, codes, text_eq}
use ar_csent.Dict.{Dict}
use ar_csent.Api.{Result, ok, err}
use ar_csent.Results.{
  ScanResult, ResultSummary, FindingSummary, ResultCache, latest_summaries, history_summaries,
  findings_history,
}
use ar_csent.Scheduler.{Job, list_jobs}
use ar_csent.Scheduler.Jobs.{JobConfig}
use ar_csent.Scheduler.State.{JobState}
use ar_csent.Detection.Baseline.{Baseline}
use ar_csent.Server.Http.{Request, Response, response}
use ar_csent.Server.Metrics.{Stats, build_metrics}
use ar_csent.Server.Trigger.{
  Endpoint, health, status, scanners, trigger, latest, history, findings, baselines, export_results,
  export_baselines, signatures_status, signatures_update, metrics,
}

-- The answer of `/scanners`.
pub record ScannersAnswer : Type 0 where
  pub plugins : List Text
  pub jobs : List (JobConfig ℕ)
  pub states : Dict (JobState × ℕ)

pub record Forms (F J Status : Type 0) : Type 0 where
  pub health : Text
  pub running : Bool → Text
  pub error : Text → Text
  pub empty_list : Text
  pub empty_object : Text
  pub scanners : ScannersAnswer → Text
  pub summaries : List (ResultSummary ℕ) → Text
  pub findings : List (FindingSummary ℕ) → Text
  pub results : List (ScanResult ℕ J) → Text
  pub baselines : List (Baseline F) → Text
  pub signatures : Status → Text
  pub csv : List (List Text) → Text
  pub integer : ℤ → Text
  pub decimal : F → Text
  pub rfc3339 : ℕ → Text
  pub duration : ℤ → Text

-- The state that the handlers read; `triggered` is what an update of the signatures returns.
pub record Backend (F J Status : Type 0) : Type 0 where
  pub running_as_root : Bool
  pub plugins : List Text
  pub jobs : Dict Job
  pub cache : ResultCache ℕ J
  pub baselines : Option (Result (List (Baseline F)))
  pub stored : Option (Result (List (ScanResult ℕ J)))
  pub signatures : Option (Result Status)
  pub triggered : Option (Result Status)
  pub stats : Stats

-- The states of `/scanners`, one for each job.
abbrev pub job_states : Dict Job → Dict (JobState × ℕ)
job_states [] = []
job_states ((name, j) ∷ jobs) = (name, (j.state, j.next_run)) ∷ job_states jobs

module _ {F J Status : Type 0} (forms : Forms F J Status) where
  abbrev result_row : ScanResult ℕ J → List Text
  result_row res =
      res.scanner_name
      ∷ res.status
      ∷ forms.integer (pos (length res.findings))
      ∷ forms.rfc3339 res.started_at
      ∷ forms.rfc3339 res.finished_at
      ∷ forms.duration res.duration
      ∷ []

  abbrev baseline_row : Baseline F → List Text
  baseline_row b =
      b.scanner_name
      ∷ b.metric
      ∷ forms.integer b.count
      ∷ forms.decimal b.mean
      ∷ forms.decimal b.min
      ∷ forms.decimal b.max
      ∷ forms.rfc3339 b.updated_at
      ∷ []

  unfoldable pub results_to_rows : List (ScanResult ℕ J) → List (List Text)
  results_to_rows results = map result_row results

  unfoldable pub baselines_to_rows : List (Baseline F) → List (List Text)
  baselines_to_rows found = map baseline_row found

  abbrev pub results_header : List Text
  results_header =
      codes "scanner"
      ∷ codes "status"
      ∷ codes "findings"
      ∷ codes "started_at"
      ∷ codes "finished_at"
      ∷ codes "duration"
      ∷ []

  abbrev pub baselines_header : List Text
  baselines_header =
      codes "scanner"
      ∷ codes "metric"
      ∷ codes "count"
      ∷ codes "mean"
      ∷ codes "min"
      ∷ codes "max"
      ∷ codes "updated_at"
      ∷ []

  -- An answer from what a call returned, or in its absence, and with the status of an error.
  abbrev answer_of {ℓ} : {A : Type ℓ} → Response → ℕ → (A → Text) → Option (Result A) → Response
  answer_of absent failed form none = absent
  answer_of absent failed form (some (ok a)) = response 200 (form a)
  answer_of absent failed form (some (err message)) = response failed (forms.error message)

  abbrev is_csv : Text → Bool
  is_csv format = text_eq format (codes "csv")

  module _ (b : Backend F J Status) where
    unfoldable pub handle_scanners : Response
    unfolding list_jobs
    handle_scanners = response 200 (
        forms.scanners
          (record { plugins = b.plugins; jobs = list_jobs b.jobs; states = job_states b.jobs }))

    unfoldable pub handle_baselines : Response
    handle_baselines = answer_of (response 200 forms.empty_list) 500 forms.baselines b.baselines

    -- The argument is the parameter `format` of the URL.
    unfoldable pub handle_export_results : Text → Response
    unfolding results_to_rows
    handle_export_results format =
        answer_of (response 200 forms.empty_list) 500
          (λ results.
            if is_csv format
            then forms.csv (results_header ∷ results_to_rows results)
            else forms.results results)
          b.stored

    unfoldable pub handle_export_baselines : Text → Response
    unfolding baselines_to_rows
    handle_export_baselines format =
        answer_of (response 200 forms.empty_list) 500
          (λ found.
            if is_csv format
            then forms.csv (baselines_header ∷ baselines_to_rows found)
            else forms.baselines found)
          b.baselines

    unfoldable pub handle_signatures_status : Response
    handle_signatures_status =
        answer_of (response 200 forms.empty_object) 500 forms.signatures b.signatures

    unfoldable pub handle_signatures_update : Request → Response
    handle_signatures_update r =
        if text_eq r.method (codes "POST")
        then answer_of (response 400 (forms.error (codes "signatures updater not configured"))) 400
            forms.signatures b.triggered
        else response 405 (forms.error (codes "POST required"))

    -- The handlers of the routes, without the trigger's, which `serve` has.
    unfoldable pub answer : (Request → Text) → Endpoint → Request → Response
    unfolding handle_scanners handle_baselines handle_export_results handle_export_baselines
        handle_signatures_status handle_signatures_update latest_summaries history_summaries
        findings_history build_metrics
    answer format health r = response 200 forms.health
    answer format status r = response 200 (forms.running b.running_as_root)
    answer format scanners r = handle_scanners
    answer format trigger r = response 404 []
    answer format latest r = response 200 (forms.summaries (latest_summaries b.cache))
    answer format history r = response 200 (forms.summaries (history_summaries b.cache))
    answer format findings r = response 200 (forms.findings (findings_history b.cache))
    answer format baselines r = handle_baselines
    answer format export_results r = handle_export_results (format r)
    answer format export_baselines r = handle_export_baselines (format r)
    answer format signatures_status r = handle_signatures_status
    answer format signatures_update r = handle_signatures_update r
    answer format metrics r = response 200 (build_metrics b.stats)
