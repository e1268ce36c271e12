-- ===== src/Pipeline.antt =====
-- internal/daemon/runner.go, the function given to `SetOnResult`: what the daemon does with the result
-- of an execution. `save` is the store of results (internal/storage), whose error is not looked at.
-- Go visits the metadata in any order; here it is that of the dictionary.
pub mod Repeats
pub mod Found
pub mod Quiet
use ar_csent.Prelude.{
  ℕ, Option, none, some, List, [], ◌∷◌, ◌++◌, Bool, true, false, suc, ℤ, if◌then◌else◌,
}
use ar_csent.Text.{Text, codes}
use ar_csent.Dict.{Dict}
use ar_csent.Results
use ar_csent.Results.{Value, string, other, Finding, ScanResult, ResultCache}
use ar_csent.Alerting.{Alert, Engine, send}
use ar_csent.Detection.Floats.{Floats}
use ar_csent.Detection.Drift.{BaselineStore, observe}
use ar_csent.Detection.Rules.{Rule, Numbers, number, evaluate}
use ar_csent.Detection.Correlation
use ar_csent.Detection.Correlation.{Correlator, Evidence}

-- What the function works with: the rules and the setting of the configuration.
pub record Setup (S B F J D : Type 0) : Type 0 where
  pub floats : Floats F
  pub numbers : Numbers F J
  pub evidence : Evidence J
  pub baselines : BaselineStore S B F
  pub lower : Text → Text
  pub hash : Text → Text
  pub rules : List (Rule F)
  pub drift_consecutive : ℤ
  pub save : ScanResult ℕ J → D → D

-- What it changes.
pub record State (S J D : Type 0) : Type 0 where
  pub baselines : S
  pub correlator : Correlator
  pub cache : ResultCache ℕ J
  pub saved : D
  pub engine : Engine J

-- The clock at the metrics, at the correlation, and at each alert.
pub record Clock : Type 0 where
  pub at_metrics : ℕ
  pub at_correlation : ℕ
  pub at_alert : ℕ → ℕ

module _ {S B F J D : Type 0} (setup : Setup S B F J D) where
  abbrev pub drift_finding : Text → F → Finding J
  drift_finding metric value = record {
    id = codes "metric_drift";
    severity = codes "high";
    category = codes "drift";
    description = codes "Metric drift detected beyond baseline.";
    evidence =
        (codes "metric", string metric)
        ∷ (codes "value", other (setup.numbers.of_float value))
        ∷ [];
    remediation = codes "Review system changes affecting this metric.";
  }

  abbrev pub with_drift :
      Bool → Text → F → Option (List (Finding J) × S) → Option (List (Finding J) × S)
  with_drift drift metric value none = none
  with_drift drift metric value (some (findings, s)) =
      some ((if drift then drift_finding metric value ∷ findings else findings), s)

  -- The drift of one metric, in front of those of the others.
  abbrev pub then_rest :
      Text
      → F
      → Option (Bool × S)
      → (S → Option (List (Finding J) × S))
      → Option (List (Finding J) × S)
  then_rest metric value none rest = none
  then_rest metric value (some (drift, s)) rest = with_drift drift metric value (rest s)

  abbrev pub if_number :
      Text
      → ℕ
      → Text
      → Option F
      → S
      → (S → Option (List (Finding J) × S))
      → Option (List (Finding J) × S)
  if_number scanner_name now metric none s rest = rest s
  if_number scanner_name now metric (some value) s rest =
      then_rest metric value
        (observe setup.baselines setup.floats scanner_name metric now value setup.drift_consecutive
          s)
        rest

  -- The loop over the metadata: its findings, and the store of baselines after it; `none` is a panic.
  unfoldable pub find_drifts : Text → ℕ → Dict (Value J) → S → Option (List (Finding J) × S)
  unfolding observe
  find_drifts scanner_name now [] s = some ([], s)
  find_drifts scanner_name now ((metric, raw) ∷ metadata) s =
      if_number scanner_name now metric (number setup.floats setup.numbers setup.lower raw) s
        (find_drifts scanner_name now metadata)

  abbrev pub more : ScanResult ℕ J → List (Finding J) → ScanResult ℕ J
  more res findings = record res { findings = res.findings ++ findings }

  abbrev pub alert_of : Text → Finding J → Alert J
  alert_of scanner_name finding = record {
    id = [];
    timestamp = none;
    severity = finding.severity;
    scanner_name = scanner_name;
    finding = finding;
    reason = codes "finding_detected";
  }

  -- An alert for each finding, from the one of this number on.
  unfoldable pub send_all : Text → (ℕ → ℕ) → ℕ → List (Finding J) → Engine J → Engine J
  unfolding send
  send_all scanner_name at n [] e = e
  send_all scanner_name at n (finding ∷ findings) e =
      send_all scanner_name at (suc n) findings
        (send setup.hash (at n) (alert_of scanner_name finding) e)

  -- The result with the rules' findings.
  abbrev pub ruled : ScanResult ℕ J → ScanResult ℕ J
  ruled res = more res (evaluate setup.floats setup.numbers setup.lower setup.rules res)

  -- From the correlation's answer on.
  abbrev pub stored :
      Clock → ScanResult ℕ J → S → State S J D → List (Finding J) × Correlator → State S J D
  stored clock res s st (findings, c) = record {
    baselines = s;
    correlator = c;
    cache = Results.add (more res findings) st.cache;
    saved = setup.save (more res findings) st.saved;
    engine = send_all res.scanner_name clock.at_alert 0 (more res findings).findings st.engine;
  }

  abbrev pub after_drifts :
      Clock → ScanResult ℕ J → State S J D → Option (List (Finding J) × S) → Option (State S J D)
  after_drifts clock res st none = none
  after_drifts clock res st (some (drifts, s)) = some (
      stored clock (ruled (more res drifts)) s st (
        Correlation.add setup.evidence clock.at_correlation (ruled (more res drifts))
          st.correlator))

  -- The function given to `SetOnResult`; `none` is a panic.
  unfoldable pub on_result : Clock → ScanResult ℕ J → State S J D → Option (State S J D)
  unfolding find_drifts send_all evaluate Results.add Correlation.add
  on_result clock res st =
      after_drifts clock res st
        (find_drifts res.scanner_name clock.at_metrics res.metadata st.baselines)
