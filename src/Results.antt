-- ===== src/Results.antt =====
-- internal/state/results.go: the cache of the scanners' results, with `Result` and `Finding` of
-- internal/scanner/types.go. The lock of the cache is held in every method, so a method is one step.
-- A time is a value of `T`; a value of a map that is not a string is a `J`.
pub mod History
pub mod Summaries
use ar_csent.Prelude.{
  ℕ, zero, suc, ◌-◌, List, [], ◌∷◌, ◌++◌, map, flat_map, length, ltb, if◌then◌else◌, ℤ, pos, negsuc,
}
use ar_csent.Text.{Text}
use ar_csent.Dict.{Dict, set}

pub data Value (J : Type 0) : Type 0 where
  string : Text → Value J
  other : J → Value J

pub record Finding (J : Type 0) : Type 0 where
  pub id : Text
  pub severity : Text
  pub category : Text
  pub description : Text
  pub evidence : Dict (Value J)
  pub remediation : Text

pub record ScanResult (T J : Type 0) : Type 0 where
  pub scanner_name : Text
  pub status : Text
  pub findings : List (Finding J)
  pub started_at : T
  pub finished_at : T
  pub duration : ℤ
  pub metadata : Dict (Value J)

pub record ResultSummary (T : Type 0) : Type 0 where
  pub scanner_name : Text
  pub status : Text
  pub findings : ℕ
  pub started_at : T
  pub finished_at : T
  pub duration : ℤ
  pub metadata : Dict Text

pub record FindingSummary (T : Type 0) : Type 0 where
  pub scanner_name : Text
  pub severity : Text
  pub category : Text
  pub description : Text
  pub occurred_at : T
  pub evidence : Dict Text

pub record ResultCache (T J : Type 0) : Type 0 where
  pub latest : Dict (ScanResult T J)
  pub history : List (ScanResult T J)
  pub limit : ℕ

-- `xs[n:]`
unfoldable pub drop {ℓ} : {A : Type ℓ} → ℕ → List A → List A
drop n [] = []
drop zero (x ∷ xs) = x ∷ xs
drop (suc n) (x ∷ xs) = drop n xs

-- The values of a map that are strings.
unfoldable pub strings : {J : Type 0} → Dict (Value J) → Dict Text
strings [] = []
strings ((k, string s) ∷ d) = (k, s) ∷ strings d
strings ((k, other v) ∷ d) = strings d

-- `limit <= 0` stands for 50.
abbrev pub limit_of : ℤ → ℕ
limit_of (pos zero) = 50
limit_of (pos (suc n)) = suc n
limit_of (negsuc n) = 50

module _ {T J : Type 0} where
  unfoldable pub new_cache : ℤ → ResultCache T J
  new_cache limit = record { latest = []; history = []; limit = limit_of limit }

  -- The newest results, no more than the limit.
  abbrev trimmed : ℕ → List (ScanResult T J) → List (ScanResult T J)
  trimmed limit history =
      if ltb limit (length history) then drop (length history - limit) history else history

  unfoldable pub add : ScanResult T J → ResultCache T J → ResultCache T J
  unfolding set drop
  add result c = record {
    latest = set result.scanner_name result c.latest;
    history = trimmed c.limit (c.history ++ result ∷ []);
    limit = c.limit;
  }

  unfoldable pub summarize : ScanResult T J → ResultSummary T
  unfolding strings
  summarize res = record {
    scanner_name = res.scanner_name;
    status = res.status;
    findings = length res.findings;
    started_at = res.started_at;
    finished_at = res.finished_at;
    duration = res.duration;
    metadata = strings res.metadata;
  }

  abbrev values : Dict (ScanResult T J) → List (ScanResult T J)
  values [] = []
  values ((k, res) ∷ d) = res ∷ values d

  -- Go visits a map in any order; this is that of the first results of the names.
  unfoldable pub latest_summaries : ResultCache T J → List (ResultSummary T)
  unfolding summarize
  latest_summaries c = map summarize (values c.latest)

  unfoldable pub history_summaries : ResultCache T J → List (ResultSummary T)
  unfolding summarize
  history_summaries c = map summarize c.history

  abbrev finding_summary : ScanResult T J → Finding J → FindingSummary T
  finding_summary res finding = record {
    scanner_name = res.scanner_name;
    severity = finding.severity;
    category = finding.category;
    description = finding.description;
    occurred_at = res.finished_at;
    evidence = strings finding.evidence;
  }

  unfoldable pub findings_history : ResultCache T J → List (FindingSummary T)
  unfolding strings
  findings_history c = flat_map (λ res. map (finding_summary res) res.findings) c.history
