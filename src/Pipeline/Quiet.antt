-- ===== src/Pipeline/Quiet.antt =====
-- internal/daemon/runner.go: a result with nothing in it to report.
use ar_csent.Prelude.{ℕ, ◌≡◌, refl, ◌∙◌, ap, none, some, List, [], ◌∷◌, append-nil, All}
use ar_csent.Text.{Text}
use ar_csent.Dict.{Dict}
use ar_csent.Results
use ar_csent.Results.{Value, Finding, ScanResult}
use ar_csent.Detection.Correlation
use ar_csent.Detection.Rules.{Rule, matched, number, evaluate}
use ar_csent.Pipeline.{
  Setup, State, Clock, more, ruled, stored, after_drifts, find_drifts, send_all, on_result,
}

module _ {S B F J D : Type 0} (setup : Setup S B F J D) where
  find_drifts_of_texts :
      (name : Text) (now : ℕ) (metadata : Dict (Value J)) (s : S)
      → All (λ entry. number setup.floats setup.numbers setup.lower entry.1 ≡ none) metadata
      → find_drifts setup name now metadata s ≡ some ([], s)
  unfolding find_drifts
  find_drifts_of_texts name now [] s h = refl
  find_drifts_of_texts name now ((metric, raw) ∷ metadata) s h =
      rw h.0 (find_drifts_of_texts name now metadata s h.1)

  evaluate_of_none :
      (rules : List (Rule F)) (res : ScanResult ℕ J)
      → All (λ rule. matched setup.floats setup.numbers setup.lower rule res ≡ none) rules
      → evaluate setup.floats setup.numbers setup.lower rules res ≡ []
  unfolding evaluate
  evaluate_of_none [] res h = refl
  evaluate_of_none (rule ∷ rules) res h = rw h.0 (evaluate_of_none rules res h.1)

  more-nil : (res : ScanResult ℕ J) → more setup res [] ≡ res
  more-nil res = ap (λ f. record res { findings = f }) (append-nil res.findings)

  add_of_nil :
      (now : ℕ) (res : ScanResult ℕ J) (c : Correlation.Correlator)
      → res.findings ≡ []
      → Correlation.add setup.evidence now res c ≡ ([], c)
  unfolding Correlation.add
  add_of_nil now res c h = rw h refl

  -- A result without findings, of whose metadata no value is a number, and which no rule matches, is
  -- only added to the cache and saved: the baselines, the correlation and the alerts stay as they
  -- are, and nothing panics.
  pub on_result-quiet :
      (clock : Clock) (res : ScanResult ℕ J) (st : State S J D)
      → res.findings ≡ []
      → All (λ entry. number setup.floats setup.numbers setup.lower entry.1 ≡ none) res.metadata
      → All (λ rule. matched setup.floats setup.numbers setup.lower rule res ≡ none) setup.rules
      → on_result setup clock res st
        ≡ some (record st { cache = Results.add res st.cache; saved = setup.save res st.saved })
  unfolding on_result
  on_result-quiet clock res st empty texts unmatched =
      ap (after_drifts setup clock res st)
        (find_drifts_of_texts res.scanner_name clock.at_metrics res.metadata st.baselines texts)
      ∙ ap
          (λ full. some (
            stored setup clock full st.baselines st
              (Correlation.add setup.evidence clock.at_correlation full st.correlator)))
          same
      ∙ ap (λ x. some (stored setup clock res st.baselines st x))
          (add_of_nil clock.at_correlation res st.correlator empty)
      ∙ ap (λ r. some (kept r)) (more-nil res)
      ∙ ap
          (λ fs. some (record (kept res) {
            engine = send_all setup res.scanner_name clock.at_alert 0 fs st.engine;
          }))
          empty
    where
      same : ruled setup (more setup res []) ≡ res
      same =
          ap (ruled setup) (more-nil res)
          ∙ ap (more setup res) (evaluate_of_none setup.rules res unmatched)
          ∙ more-nil res

      kept : ScanResult ℕ J → State S J D
      kept r = record {
        baselines = st.baselines;
        correlator = st.correlator;
        cache = Results.add r st.cache;
        saved = setup.save r st.saved;
        engine = send_all setup res.scanner_name clock.at_alert 0 r.findings st.engine;
      }
