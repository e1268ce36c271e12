-- ===== src/Examples/Metrics.antt =====
-- The metrics page.
use ar_csent.Prelude.{◌≡◌, refl, true, false, some, List, [], ◌∷◌, ℤ, pos, negsuc, arith}
use ar_csent.Text.{Text, codes, is_space, starts_with, text_eq}
use ar_csent.Number.{nan, infinity, decimal, to_number, is_finite}
use ar_csent.Dict.{get, set}
use ar_csent.Api.Metrics.{parse_metrics}
use ar_csent.Api.Metrics.Lines.{number_of, parse_metrics-write_gauges}
use ar_csent.Server.Gauge
use ar_csent.Server.Gauges.{write_gauges}
use ar_csent.Server.Metrics.{build_metrics, count_ok}
use ar_csent.Server.Metrics.Entries.{get-build_metrics}
use ar_csent.Dashboard.Format.{to_fixed_kb}
use ar_csent.Examples.Data.{stats}

abbrev gauges : List (Text × ℤ)
gauges = (Gauge.up, pos 1) ∷ (Gauge.findings_total, negsuc 41) ∷ []

parse_metrics-write_gauges_example :
    parse_metrics (write_gauges [] gauges)
    ≡ (Gauge.up, number_of (pos 1)) ∷ (Gauge.findings_total, number_of (negsuc 41)) ∷ []
unfolding is_space starts_with text_eq set
parse_metrics-write_gauges_example = parse_metrics-write_gauges gauges (ground arith)

get-build_metrics_example :
    (get Gauge.plugins_total (parse_metrics (build_metrics stats)) ≡ some (decimal false 8 0 0))
    × (get Gauge.jobs_total (parse_metrics (build_metrics stats)) ≡ some (decimal false 5 0 0))
    × (get Gauge.results_total (parse_metrics (build_metrics stats)) ≡ some (decimal false 120 0 0))
    × (get Gauge.findings_total (parse_metrics (build_metrics stats)) ≡ some (decimal false 7 0 0))
unfolding count_ok
get-build_metrics_example = get-build_metrics stats (omega arith)

sizes :
    (to_fixed_kb 1536 ≡ codes "1.5")
    × (to_fixed_kb 51 ≡ codes "0.0")
    × (to_fixed_kb 52 ≡ codes "0.1")
unfolding to_fixed_kb
sizes = (refl, refl, refl)

-- `Number` outside plain integers.
numbers :
    (to_number (codes " 12.50 ") ≡ decimal false 1250 0 2)
    × (to_number (codes "1e3") ≡ decimal false 1 3 0)
    × (to_number (codes "-.5E-2") ≡ decimal true 5 0 3)
    × (to_number (codes "0xff") ≡ decimal false 255 0 0)
    × (to_number (codes "+Infinity") ≡ infinity false)
    × (to_number (codes "1_000") ≡ nan)
    × (to_number (codes "0x") ≡ nan)
    × (is_finite (to_number (codes "1e309")) ≡ false)
    × (is_finite (to_number (codes "1e308")) ≡ true)
unfolding to_number is_finite
numbers = (refl, refl, refl, refl, refl, refl, refl, refl, refl)

page :
    parse_metrics (codes "# HELP x\n\n  a 1 2\r\nb\nc x\na 3\n__proto__ 4\n")
    ≡ (codes "a", decimal false 3 0 0) ∷ []
unfolding parse_metrics to_number
page = refl
