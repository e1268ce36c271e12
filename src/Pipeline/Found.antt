-- ===== src/Pipeline/Found.antt =====
-- internal/daemon/runner.go with internal/detection/rules.go and internal/state/results.go: what a rule
-- that matches a result comes to.
use ar_csent.Prelude.{
  ℕ, ◌≡◌, refl, ◌∙◌, sym, ap, Option, none, some, List, [], ◌∷◌, ◌++◌, append_assoc,
}
use ar_csent.Text.{Text}
use ar_csent.Dict.{get}
use ar_csent.Dict.Laws.{get-set_self}
use ar_csent.Results
use ar_csent.Results.{Finding, ScanResult, ResultCache}
use ar_csent.Detection.Correlation
use ar_csent.Detection.Rules.{Rule, matched, found_by, rule_finding, evaluate}
use ar_csent.Pipeline.{Setup, State, Clock, more, ruled, after_drifts, find_drifts, on_result}

regroup {ℓ} :
    {A : Type ℓ} (ds xs : List A) (f : A) (ys cs : List A)
    → ds ++ ((xs ++ f ∷ ys) ++ cs) ≡ (ds ++ xs) ++ f ∷ (ys ++ cs)
regroup ds xs f ys cs = simp append_assoc

module _ {S B F J D : Type 0} (setup : Setup S B F J D) where
  -- A finding stands among a list of them.
  abbrev pub Among : Finding J → List (Finding J) → Type 0
  Among f findings =
      (before : List (Finding J)) × (after : List (Finding J)) × (findings ≡ before ++ f ∷ after)

  evaluate-Among :
      (before after : List (Rule F)) (rule : Rule F) (res : ScanResult ℕ J) (value : F)
      → matched setup.floats setup.numbers setup.lower rule res ≡ some value
      → Among
          (rule_finding setup.floats setup.numbers setup.lower rule value)
          (evaluate setup.floats setup.numbers setup.lower (before ++ rule ∷ after) res)
  unfolding evaluate
  evaluate-Among [] after rule res value h =
      ([], evaluate setup.floats setup.numbers setup.lower after res, rw h refl)
  evaluate-Among (r ∷ before) after rule res value h =
      let rest = evaluate-Among before after rule res value h in
      let first =
        found_by setup.floats setup.numbers setup.lower r
          (matched setup.floats setup.numbers setup.lower r res) in
      (first ++ rest.0, rest.1, ap (λ x. first ++ x) rest.2 ∙ sym (append_assoc first rest.0 _))

  latest-add :
      (res : ScanResult ℕ J) (c : ResultCache ℕ J)
      → get res.scanner_name (Results.add res c).latest ≡ some res
  unfolding Results.add
  latest-add res c = get-set_self res.scanner_name res c.latest

  abbrev latest_in : Text → Option (State S J D) → Option (ScanResult ℕ J)
  latest_in name none = none
  latest_in name (some st) = get name st.cache.latest

  -- The latest result of a result's scanner is this one with its metadata, its own findings first and
  -- a finding among those that follow.
  abbrev pub IsCached : ScanResult ℕ J → Finding J → State S J D → Type 0
  IsCached res f st =
      (r : ScanResult ℕ J) × (get res.scanner_name st.cache.latest ≡ some r)
      × (r.metadata ≡ res.metadata)
      × ((added : List (Finding J)) × (r.findings ≡ res.findings ++ added) × Among f added)

  -- If a rule of the configuration matches a result, and nothing panics, then the latest result of
  -- this scanner in the cache is this one with its own findings first and the finding of the rule
  -- among those that follow; its metadata is as it was.
  pub on_result-rule :
      (before after : List (Rule F)) (rule : Rule F) (clock : Clock) (res : ScanResult ℕ J)
      (value : F) (st st' : State S J D)
      → setup.rules ≡ before ++ rule ∷ after
      → matched setup.floats setup.numbers setup.lower rule res ≡ some value
      → on_result setup clock res st ≡ some st'
      → IsCached res (rule_finding setup.floats setup.numbers setup.lower rule value) st'
  unfolding on_result
  on_result-rule before after rule clock res value st st' among matches h =
      from_drifts (find_drifts setup res.scanner_name clock.at_metrics res.metadata st.baselines) h
    where
      found :
          (drifts : List (Finding J))
          → Among
              (rule_finding setup.floats setup.numbers setup.lower rule value)
              (evaluate setup.floats setup.numbers setup.lower setup.rules (more setup res drifts))
      found drifts =
          rw among (evaluate-Among before after rule (more setup res drifts) value matches)

      from_drifts :
          (o : Option (List (Finding J) × S))
          → after_drifts setup clock res st o ≡ some st'
          → IsCached res (rule_finding setup.floats setup.numbers setup.lower rule value) st'
      from_drifts none e = absurd (cc)
      from_drifts (some (drifts, s)) e =
          let full = ruled setup (more setup res drifts) in
          let corr = (Correlation.add setup.evidence clock.at_correlation full st.correlator).0 in
          let r = more setup full corr in
          let f = found drifts in
          (
            r,
            ap (latest_in res.scanner_name) (sym e) ∙ latest-add r st.cache,
            refl,
            (
              drifts
                  ++ (evaluate setup.floats setup.numbers setup.lower setup.rules
                        (more setup res drifts)
                      ++ corr),
              simp append_assoc,
              (
                drifts ++ f.0,
                f.1 ++ corr,
                ap (λ x. drifts ++ (x ++ corr)) f.2 ∙ regroup drifts f.0 _ f.1 corr,
              ),
            ),
          )
