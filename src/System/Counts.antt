-- ===== src/System/Counts.antt =====
-- What the client reads on the metrics page of the cache of results: `buildMetrics` of
-- internal/api/server.go counts the cache's history.
use ar_csent.Prelude.{◌≤◌, ◌≡◌, ◌∙◌, ap, some, List, length, ℤ}
use mathlib.Core.Option
use ar_csent.Dict.{get}
use ar_csent.Api.Metrics.{parse_metrics}
use ar_csent.Server.Gauge
use ar_csent.Server.Metrics.{Stats, build_metrics}
use ar_csent.Server.Metrics.Names.{FitsInt64}
use ar_csent.Server.Metrics.Entries.{count, get-build_metrics}
use ar_csent.Results.{ScanResult, new_cache, findings_history, limit_of}
use ar_csent.Results.History.{add_all, length-history}

-- The number of results that the client reads on the metrics page, where that counts the cache's
-- history, stays at the cache's limit once that many results were added, however many follow. All
-- numbers on the page are of at most 2 ^ 63.
pub get-results_total :
    {T J : Type 0} (limit : ℤ) (results : List (ScanResult T J)) (stats : Stats)
    → limit_of limit ≤ length results
    → stats.results
      ≡ some (
        length (add_all results (new_cache limit)).history,
        length (findings_history (add_all results (new_cache limit))),
      )
    → FitsInt64 stats
    → get Gauge.results_total (parse_metrics (build_metrics stats)) ≡ some (count (limit_of limit))
get-results_total limit results stats many counted fits =
    (get-build_metrics stats fits).2
    ∙ ap (Option.map (λ r. count r.0)) counted
    ∙ ap (λ n. some (count n)) ((length-history limit results).2 many)
