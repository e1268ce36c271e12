-- ===== src/Server/Metrics/Names.antt =====
-- The metrics page of the daemon, read by the client: the names of its gauges are names that the
-- client reads, so that the object has exactly the daemon's gauges.
use ar_csent.Prelude.{
  ℕ, ◌≤◌, ◌^◌, Option, none, some, List, [], ◌∷◌, ℤ, abs, All, ◌≡◌, arith, ◌∙◌, All-append, ap,
}
use ar_csent.Text.{Text, is_space, starts_with, text_eq}
use ar_csent.Api.Metrics.{parse_metrics}
use ar_csent.Api.Metrics.Lines.{IsGauge, IsGaugeName, entries, parse_metrics-write_gauges}
use ar_csent.Server.Gauge
use ar_csent.Server.Metrics.{SignatureStats, Stats, build_metrics}
use ar_csent.Server.Metrics.Page.{
  counter, results, time, signatures, gauges, build_metrics-write_gauges,
}

-- Every number of the page fits a 64-bit integer of Go.
abbrev pub FitsInt64 : Stats → Type 0
FitsInt64 s = All (λ g. abs g.1 ≤ 2 ^ 63) (gauges s)

abbrev Named : List (Text × ℤ) → Type 0
Named = All (λ g. IsGaugeName g.0)

names_valid :
    IsGaugeName Gauge.up
    × IsGaugeName Gauge.running_as_root
    × IsGaugeName Gauge.plugins_total
    × IsGaugeName Gauge.jobs_total
    × IsGaugeName Gauge.results_total
    × IsGaugeName Gauge.findings_total
    × IsGaugeName Gauge.signatures_sources_total
    × IsGaugeName Gauge.signatures_sources_ok_total
    × IsGaugeName Gauge.signatures_last_run_timestamp_seconds
    × IsGaugeName Gauge.signatures_next_run_timestamp_seconds
unfolding is_space starts_with text_eq
names_valid = ground arith

counter-Named : (name : Text) (o : Option ℕ) → IsGaugeName name → Named (counter name o)
counter-Named name none h = tt
counter-Named name (some n) h = (h, tt)

time-Named : (name : Text) (o : Option ℤ) → IsGaugeName name → Named (time name o)
time-Named name none h = tt
time-Named name (some n) h = (h, tt)

results-Named : (o : Option (ℕ × ℕ)) → Named (results o)
results-Named none = tt
results-Named (some r) = (names_valid.4, (names_valid.5, tt))

signatures-Named : (o : Option SignatureStats) → Named (signatures o)
signatures-Named none = tt
signatures-Named (some s) = (
  names_valid.6,
  (
    names_valid.7,
    All-append _ (time Gauge.signatures_last_run_timestamp_seconds s.last_run) _
        (time-Named _ s.last_run names_valid.8) (time-Named _ s.next_run names_valid.9),
  ),
)

gauges-Named : (s : Stats) → Named (gauges s)
gauges-Named s = (
  names_valid.0,
  (
    names_valid.1,
    All-append _ (counter Gauge.plugins_total s.plugins) _ (counter-Named _ s.plugins names_valid.2)
        (All-append _ (counter Gauge.jobs_total s.jobs) _ (counter-Named _ s.jobs names_valid.3) (
          All-append _ (results s.results) _ (results-Named s.results)
            (signatures-Named s.signatures))),
  ),
)

Named-IsGauge : (gs : List (Text × ℤ)) → Named gs → All (λ g. abs g.1 ≤ 2 ^ 63) gs → All IsGauge gs
Named-IsGauge [] n f = tt
Named-IsGauge ((name, value) ∷ gs) n f = ((n.0, f.0), Named-IsGauge gs n.1 f.1)

-- The client reads the daemon's page as the gauges that the daemon wrote.
pub parse_metrics-build_metrics :
    (s : Stats) → FitsInt64 s → parse_metrics (build_metrics s) ≡ entries [] (gauges s)
parse_metrics-build_metrics s h =
    ap parse_metrics (build_metrics-write_gauges s)
    ∙ parse_metrics-write_gauges (gauges s) (Named-IsGauge (gauges s) (gauges-Named s) h)
