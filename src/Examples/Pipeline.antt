-- ===== src/Examples/Pipeline.antt =====
-- A result with a load of 9, and a rule that triggers above 4.
use ar_csent.Prelude.{ℕ, ◌≡◌, refl, none, some, List, [], ◌∷◌, pos, arith}
use ar_csent.Text.{codes, text_eq}
use ar_csent.Dict.{Dict, get, set}
use ar_csent.Results
use ar_csent.Results.{Finding, ScanResult, other, string, new_cache}
use ar_csent.Alerting.{new_engine, is_throttled, send}
use ar_csent.Detection.Baseline.{Baseline}
use ar_csent.Detection.Correlation.{new_correlator}
use ar_csent.Detection.Rules.{Rule, rule_finding}
use ar_csent.Pipeline.{Setup, State, Clock, drift_finding, alert_of, on_result}
use ar_csent.Pipeline.Repeats.{send-drifts}
use ar_csent.Pipeline.Found.{IsCached, on_result-rule}
use ar_csent.Pipeline.Quiet.{on_result-quiet}
use ar_csent.Examples.Alerting.{config, parse_duration}
use ar_csent.Examples.Detection.{whole, baselines}

abbrev high_load : Rule ℕ
high_load = record {
  name = codes "load";
  scanner = codes "*";
  metric = codes "load1";
  operator = codes "gt";
  threshold = 4;
  severity = codes "high";
  description = [];
}

abbrev setup : Setup (Dict (Baseline ℕ)) (Baseline ℕ) ℕ ℕ (List (ScanResult ℕ ℕ))
setup = record {
  floats = whole;
  numbers = record { to_float = λ n. some n; of_float = λ n. n };
  evidence = record { of_int = λ n. n; show_duration = λ d. codes "5m0s" };
  baselines = baselines;
  lower = λ t. t;
  hash = λ t. t;
  rules = high_load ∷ [];
  drift_consecutive = pos 1;
  save = λ res saved. res ∷ saved;
}

abbrev start : State (Dict (Baseline ℕ)) ℕ (List (ScanResult ℕ ℕ))
start = record {
  baselines = [];
  correlator = new_correlator (pos 0) (pos 0) (pos 0);
  cache = new_cache (pos 50);
  saved = [];
  engine = new_engine parse_duration config;
}

abbrev clock : Clock
clock = record { at_metrics = 5; at_correlation = 6; at_alert = λ n. 7 }

abbrev load : ScanResult ℕ ℕ
load = record {
  scanner_name = codes "load";
  status = codes "success";
  findings = [];
  started_at = 1;
  finished_at = 2;
  duration = pos 1;
  metadata = (codes "load1", other 9) ∷ (codes "host", string (codes "a")) ∷ [];
}

abbrev named : ScanResult ℕ ℕ
named = record load { metadata = (codes "host", string (codes "a")) ∷ [] }

abbrev after_load : State (Dict (Baseline ℕ)) ℕ (List (ScanResult ℕ ℕ))
after_load = elim (on_result setup clock load start) [ none ↦ start | some st ↦ st ]

on_result-rule_example :
    IsCached setup load (rule_finding whole setup.numbers (λ t. t) high_load 9) after_load
unfolding on_result new_correlator new_cache new_engine get set text_eq
on_result-rule_example =
    on_result-rule setup [] [] high_load clock load 9 start after_load refl refl refl

on_result-quiet_example :
    on_result setup clock named start
    ≡ some (record start { cache = Results.add named start.cache; saved = named ∷ [] })
unfolding get text_eq
on_result-quiet_example = on_result-quiet setup clock named start refl (refl, tt) (refl, tt)

send-drifts_example :
    send
      (λ t. t)
      1004
      (alert_of setup (codes "load") (drift_finding setup (codes "load5") 7))
      (send
        (λ t. t)
        5
        (alert_of setup (codes "load") (drift_finding setup (codes "load1") 9))
        start.engine)
    ≡ send
        (λ t. t)
        5
        (alert_of setup (codes "load") (drift_finding setup (codes "load1") 9))
        start.engine
unfolding new_engine is_throttled
send-drifts_example =
    send-drifts setup (codes "load") (codes "load1") (codes "load5") 9 7 5 1004 start.engine refl
      refl (omega arith)
