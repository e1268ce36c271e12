-- ===== src/Server/Metrics.antt =====
-- internal/api/server.go, `buildMetrics`: which gauges the metrics page has.
pub mod Page
pub mod Names
pub mod Entries
use ar_csent.Prelude.{
  ℕ, suc, Bool, Option, none, some, List, [], ◌∷◌, ℤ, pos, length, if◌then◌else◌, is_empty,
}
use ar_csent.Text.{Text, codes}
use ar_csent.Server.Gauge
use ar_csent.Server.Gauges.{write_gauge}

-- What `LoadStatus` of the signature store returned: the errors of the sources, "" where a source
-- is up to date, and the two times as Unix seconds, `none` for Go's zero time.
pub record SignatureStats : Type 0 where
  pub source_errors : List Text
  pub last_run : Option ℤ
  pub next_run : Option ℤ

-- What `buildMetrics` reads. A part that the server was built without is `none`, and so is the
-- status of the signature store where loading it fails.
pub record Stats : Type 0 where
  pub running_as_root : Bool
  pub plugins : Option ℕ
  pub jobs : Option ℕ
  pub results : Option (ℕ × ℕ)
  pub signatures : Option SignatureStats

-- The loop that counts the sources without an error.
unfoldable pub count_ok : List Text → ℕ
count_ok [] = 0
count_ok (e ∷ errors) = let rest = count_ok errors in if is_empty e then suc rest else rest

abbrev flag : Bool → ℤ
flag b = if b then pos 1 else pos 0

write_counter : Text → Text → Option ℕ → Text
write_counter builder name none = builder
write_counter builder name (some n) = write_gauge builder name (pos n)

write_results : Text → Option (ℕ × ℕ) → Text
write_results builder none = builder
write_results builder (some (results, findings)) =
    let counted = write_gauge builder Gauge.results_total (pos results) in
    write_gauge counted Gauge.findings_total (pos findings)

write_time : Text → Text → Option ℤ → Text
write_time builder name none = builder
write_time builder name (some t) = write_gauge builder name t

write_signatures : Text → Option SignatureStats → Text
write_signatures builder none = builder
write_signatures builder (some status) =
    let total =
      write_gauge builder Gauge.signatures_sources_total (pos (length status.source_errors)) in
    let ok =
      write_gauge total Gauge.signatures_sources_ok_total (pos (count_ok status.source_errors)) in
    let last = write_time ok Gauge.signatures_last_run_timestamp_seconds status.last_run in
    write_time last Gauge.signatures_next_run_timestamp_seconds status.next_run

unfoldable pub build_metrics : Stats → Text
unfolding write_counter write_results write_time write_signatures write_gauge count_ok
build_metrics s =
    let up = write_gauge [] Gauge.up (pos 1) in
    let root = write_gauge up Gauge.running_as_root (flag s.running_as_root) in
    let plugins = write_counter root Gauge.plugins_total s.plugins in
    let jobs = write_counter plugins Gauge.jobs_total s.jobs in
    let results = write_results jobs s.results in write_signatures results s.signatures
