-- ===== src/Detection/Correlation.antt =====
-- internal/detection/correlation.go: a finding where several scanners report findings within a window
-- of time. Times are nanoseconds since Go's zero time, which is 0, and durations are nanoseconds. The
-- lock is held in `Add`, so a call is one step.
use ar_csent.Prelude.{
  ℕ, zero, suc, ◌+◌, ◌-◌, ◌^◌, List, [], ◌∷◌, ◌++◌, filter, length, ltb, if◌then◌else◌, ℤ, pos,
  negsuc,
}
use ar_csent.Text.{Text, codes}
use ar_csent.Dict.{Dict, set}
use ar_csent.Results.{string, other, Finding, ScanResult}

pub record Event : Type 0 where
  pub at : ℕ
  pub scanner : Text

pub record Correlator : Type 0 where
  pub window : ℕ
  pub min_scan : ℕ
  pub cooldown : ℕ
  pub events : List Event
  pub last_triggered : ℕ

abbrev pub positive_or : ℕ → ℤ → ℕ
positive_or default (pos zero) = default
positive_or default (pos (suc n)) = suc n
positive_or default (negsuc n) = default

-- `NewCorrelator`
unfoldable pub new_correlator : ℤ → ℤ → ℤ → Correlator
new_correlator window min_scanners cooldown = record {
  window = positive_or 300000000000 window;
  min_scan = positive_or 2 min_scanners;
  cooldown = positive_or (positive_or 300000000000 window) cooldown;
  events = [];
  last_triggered = 0;
}

-- `prune`: an event is kept if it is after `now - window`.
unfoldable pub prune : ℕ → ℕ → List Event → List Event
prune window now events = filter (λ ev. ltb now (ev.at + window)) events

-- The keys of the map `unique`.
unfoldable pub unique : List Event → Dict (Unit {0})
unfolding set
unique [] = []
unique (ev ∷ events) = set ev.scanner tt (unique events)

-- `t.Sub(u)` of times that are not earlier, which stops at the largest duration.
unfoldable pub elapsed : ℕ → ℕ → ℕ
elapsed t u = if ltb (t - u) (2 ^ 63) then t - u else 2 ^ 63 - 1

-- `Add` up to its pruning.
abbrev pub noted : ℕ → Text → Correlator → Correlator
noted now scanner c = record c {
  events = prune c.window now (c.events ++ record { at = now; scanner = scanner } ∷ []);
}

-- The parts of a finding that depend on Go's values and its text of a duration.
pub record Evidence (J : Type 0) : Type 0 where
  pub of_int : ℕ → J
  pub show_duration : ℕ → Text

module _ {J : Type 0} (ev : Evidence J) where
  abbrev pub correlation_finding : ℕ → ℕ → Finding J
  correlation_finding scanners window = record {
    id = codes "correlation_multi_scanner";
    severity = codes "high";
    category = codes "correlation";
    description = codes "Multiple scanners reported findings within correlation window.";
    evidence =
        (codes "unique_scanners", other (ev.of_int scanners))
        ∷ (codes "window", string (ev.show_duration window))
        ∷ [];
    remediation = codes "Investigate combined signals for coordinated activity.";
  }

  -- `Add` behind its pruning.
  unfoldable pub trigger : ℕ → Correlator → List (Finding J) × Correlator
  unfolding unique elapsed
  trigger now c =
      if ltb (length (unique c.events)) c.min_scan
      then ([], c)
      else if ltb (elapsed now c.last_triggered) c.cooldown
      then ([], c)
      else (
        correlation_finding (length (unique c.events)) c.window ∷ [],
        record c { last_triggered = now },
      )

  -- `Add`: the findings to add to the result.
  unfoldable pub add : ℕ → ScanResult ℕ J → Correlator → List (Finding J) × Correlator
  unfolding prune trigger
  add now res c = elim res.findings [
    | [] ↦ ([], c)
    | f ∷ findings ↦ trigger now (noted now res.scanner_name c)
  ]
