-- ===== src/Results/Summaries.antt =====
-- internal/state/results.go: the summaries that the API serves.
use ar_csent.Prelude.{
  ℕ, ◌+◌, ◌≡◌, refl, List, [], ◌∷◌, map, flat_map, length, length-append, length-map, arith,
}
use ar_csent.Results.{
  ScanResult, ResultCache, summarize, history_summaries, findings_history, finding_summary,
}

abbrev pub total : List ℕ → ℕ
total [] = 0
total (n ∷ ns) = n + total ns

module _ {T J : Type 0} where
  findings_of :
      (results : List (ScanResult T J))
      → length (flat_map (λ res. map (finding_summary res) res.findings) results)
        ≡ total (map (λ s. s.findings) (map summarize results))
  unfolding summarize
  findings_of [] = refl
  findings_of (res ∷ results) = omega (
    arith,
    length-append (map (finding_summary res) res.findings)
        (flat_map (λ r. map (finding_summary r) r.findings) results),
    length-map (finding_summary res) res.findings,
    findings_of results,
  )

  -- The list of findings is as long as the numbers of findings in the history add up to.
  pub length-findings_history :
      (c : ResultCache T J)
      → length (findings_history c) ≡ total (map (λ s. s.findings) (history_summaries c))
  unfolding findings_history history_summaries
  length-findings_history c = findings_of c.history
