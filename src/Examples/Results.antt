-- ===== src/Examples/Results.antt =====
-- The cache of results with a limit of two.
use ar_csent.Prelude.{arith, false, none, ℕ, ◌≡◌, refl, some, List, [], ◌∷◌, map, pos}
use ar_csent.Text.{Text, codes, text_eq}
use ar_csent.Dict.{get}
use ar_csent.Results.{
  Finding, ScanResult, ResultCache, new_cache, add, history_summaries, findings_history,
}
use ar_csent.Results.History.{Tracks, add_all, add_all-Tracks}
use ar_csent.Number.{decimal}
use ar_csent.Api.Metrics.{parse_metrics}
use ar_csent.Server.Gauge
use ar_csent.Server.Metrics.{Stats, build_metrics}
use ar_csent.System.Counts.{get-results_total}

abbrev pub finding : Finding Unit
finding = record {
  id = codes "f1";
  severity = codes "high";
  category = codes "disk";
  description = codes "disk almost full";
  evidence = [];
  remediation = [];
}

abbrev pub result_of : Text → ℕ → List (Finding Unit) → ScanResult ℕ Unit
result_of name at findings = record {
  scanner_name = name;
  status = codes "success";
  findings = findings;
  started_at = at;
  finished_at = at;
  duration = pos 5;
  metadata = [];
}

abbrev pub results : List (ScanResult ℕ Unit)
results =
    result_of (codes "uptime") 1 []
    ∷ result_of (codes "disk") 2 (finding ∷ [])
    ∷ result_of (codes "disk") 3 (finding ∷ finding ∷ [])
    ∷ []

abbrev pub cache : ResultCache ℕ Unit
cache = add_all results (new_cache (pos 2))

add_all-Tracks_example : Tracks results cache
add_all-Tracks_example = add_all-Tracks (pos 2) results

-- The oldest result has left the history, and its name still has a latest result.
kept :
    (map (λ s. s.findings) (history_summaries cache) ≡ 1 ∷ 2 ∷ [])
    × (get (codes "uptime") cache.latest ≡ some (result_of (codes "uptime") 1 []))
unfolding new_cache add history_summaries get text_eq
kept = (refl, refl)

abbrev stats : Stats
stats = record {
  running_as_root = false;
  plugins = none;
  jobs = none;
  results = some (2, 3);
  signatures = none;
}

get-results_total_example :
    get Gauge.results_total (parse_metrics (build_metrics stats)) ≡ some (decimal false 2 0 0)
unfolding new_cache add text_eq findings_history
get-results_total_example = get-results_total (pos 2) results stats (omega arith) refl (omega arith)
