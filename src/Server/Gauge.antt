-- ===== src/Server/Gauge.antt =====
-- internal/api/server.go, `buildMetrics`: the names of the gauges.
use ar_csent.Text.{Text, codes}

abbrev pub up : Text
up = codes "arcsent_up"

abbrev pub running_as_root : Text
running_as_root = codes "arcsent_running_as_root"

abbrev pub plugins_total : Text
plugins_total = codes "arcsent_plugins_total"

abbrev pub jobs_total : Text
jobs_total = codes "arcsent_jobs_total"

abbrev pub results_total : Text
results_total = codes "arcsent_results_total"

abbrev pub findings_total : Text
findings_total = codes "arcsent_findings_total"

abbrev pub signatures_sources_total : Text
signatures_sources_total = codes "arcsent_signatures_sources_total"

abbrev pub signatures_sources_ok_total : Text
signatures_sources_ok_total = codes "arcsent_signatures_sources_ok_total"

abbrev pub signatures_last_run_timestamp_seconds : Text
signatures_last_run_timestamp_seconds = codes "arcsent_signatures_last_run_timestamp_seconds"

abbrev pub signatures_next_run_timestamp_seconds : Text
signatures_next_run_timestamp_seconds = codes "arcsent_signatures_next_run_timestamp_seconds"
