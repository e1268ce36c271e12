-- ===== src/Server/Metrics/Page.antt =====
-- What the metrics page means to the client: each gauge that the daemon writes is an entry of the
-- object that `getMetrics` returns.
use ar_csent.Prelude.{
  ℕ, Option, none, some, List, [], ◌∷◌, ◌++◌, ℤ, pos, length, ◌≡◌, refl, ◌∙◌, ap, sym,
}
use ar_csent.Text.{Text}
use ar_csent.Server.Gauge
use ar_csent.Server.Gauges.{write_gauge, write_gauges}
use ar_csent.Server.Metrics.{
  SignatureStats, Stats, count_ok, flag, build_metrics, write_counter, write_results, write_time,
  write_signatures,
}

abbrev pub counter : Text → Option ℕ → List (Text × ℤ)
counter name none = []
counter name (some n) = (name, pos n) ∷ []

abbrev pub results : Option (ℕ × ℕ) → List (Text × ℤ)
results none = []
results (some (n, m)) = (Gauge.results_total, pos n) ∷ (Gauge.findings_total, pos m) ∷ []

abbrev pub time : Text → Option ℤ → List (Text × ℤ)
time name none = []
time name (some t) = (name, t) ∷ []

abbrev pub signatures : Option SignatureStats → List (Text × ℤ)
signatures none = []
signatures (some s) =
    (Gauge.signatures_sources_total, pos (length s.source_errors))
    ∷ (Gauge.signatures_sources_ok_total, pos (count_ok s.source_errors))
    ∷ (time Gauge.signatures_last_run_timestamp_seconds s.last_run
        ++ time Gauge.signatures_next_run_timestamp_seconds s.next_run)

-- The gauges of a page, in order.
abbrev pub gauges : Stats → List (Text × ℤ)
gauges s =
    (Gauge.up, pos 1)
    ∷ (Gauge.running_as_root, flag s.running_as_root)
    ∷ (counter Gauge.plugins_total s.plugins
        ++ (counter Gauge.jobs_total s.jobs ++ (results s.results ++ signatures s.signatures)))

write_gauges-append :
    (builder : Text) (xs ys : List (Text × ℤ))
    → write_gauges builder (xs ++ ys) ≡ write_gauges (write_gauges builder xs) ys
unfolding write_gauges
write_gauges-append builder [] ys = refl
write_gauges-append builder ((name, value) ∷ xs) ys =
    write_gauges-append (write_gauge builder name value) xs ys

write_counter_lem :
    (builder name : Text) (o : Option ℕ)
    → write_counter builder name o ≡ write_gauges builder (counter name o)
unfolding write_counter write_gauges
write_counter_lem builder name none = refl
write_counter_lem builder name (some n) = refl

write_results_lem :
    (builder : Text) (o : Option (ℕ × ℕ))
    → write_results builder o ≡ write_gauges builder (results o)
unfolding write_results write_gauges
write_results_lem builder none = refl
write_results_lem builder (some r) = refl

write_time_lem :
    (builder name : Text) (o : Option ℤ)
    → write_time builder name o ≡ write_gauges builder (time name o)
unfolding write_time write_gauges
write_time_lem builder name none = refl
write_time_lem builder name (some t) = refl

write_signatures_lem :
    (builder : Text) (o : Option SignatureStats)
    → write_signatures builder o ≡ write_gauges builder (signatures o)
unfolding write_signatures write_gauges
write_signatures_lem builder none = refl
write_signatures_lem builder (some s) =
    write_time_lem _ _ s.next_run
    ∙ ap (λ b. write_gauges b (time Gauge.signatures_next_run_timestamp_seconds s.next_run))
        (write_time_lem _ _ s.last_run)
    ∙ sym (write_gauges-append _ (time Gauge.signatures_last_run_timestamp_seconds s.last_run) _)

-- The page is written by one sequence of gauges.
pub build_metrics-write_gauges : (s : Stats) → build_metrics s ≡ write_gauges [] (gauges s)
unfolding build_metrics write_gauges
build_metrics-write_gauges s =
    write_signatures_lem _ s.signatures
    ∙ ap (λ b. write_gauges b (signatures s.signatures))
        (write_results_lem _ s.results
          ∙ ap (λ b. write_gauges b (results s.results))
              (write_counter_lem _ Gauge.jobs_total s.jobs
                ∙ ap (λ b. write_gauges b (counter Gauge.jobs_total s.jobs))
                    (write_counter_lem _ Gauge.plugins_total s.plugins)))
    ∙ sym (
        write_gauges-append _ (counter Gauge.plugins_total s.plugins) _
        ∙ write_gauges-append _ (counter Gauge.jobs_total s.jobs) _
        ∙ write_gauges-append _ (results s.results) (signatures s.signatures))
