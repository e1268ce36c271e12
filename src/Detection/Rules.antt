-- ===== src/Detection/Rules.antt =====
-- internal/detection/rules.go: findings of configured rules on the metrics of a result. Go's
-- `strings.ToLower` is the argument `lower`; `%s` of a text is the text.
use ar_csent.Prelude.{
  ℕ, Bool, false, ◌||◌, Option, none, some, List, [], ◌∷◌, ◌++◌, is_empty, if◌then◌else◌,
}
use ar_csent.Text.{Text, codes, text_eq}
use ar_csent.Dict.{get}
use ar_csent.Results.{Value, string, other, Finding, ScanResult}
use ar_csent.Detection.Floats.{Floats}

pub record Rule (F : Type 0) : Type 0 where
  pub name : Text
  pub scanner : Text
  pub metric : Text
  pub operator : Text
  pub threshold : F
  pub severity : Text
  pub description : Text

-- The values that are numbers, and a number as a value.
pub record Numbers (F J : Type 0) : Type 0 where
  pub to_float : J → Option F
  pub of_float : F → J

module _ {F J : Type 0} (fl : Floats F) (nums : Numbers F J) (lower : Text → Text) where
  -- `compare`
  abbrev pub compare_by : Text → F → F → Bool
  compare_by op value threshold =
      if text_eq op (codes "gt")
      then fl.lt threshold value
      else if text_eq op (codes "gte")
      then fl.le threshold value
      else if text_eq op (codes "lt")
      then fl.lt value threshold
      else if text_eq op (codes "lte")
      then fl.le value threshold
      else if text_eq op (codes "eq")
      then fl.eq value threshold
      else false

  -- `toFloat`
  abbrev pub number : Value J → Option F
  number (string s) = none
  number (other v) = nums.to_float v

  abbrev number_of : Option (Value J) → Option F
  number_of none = none
  number_of (some v) = number v

  abbrev pub triggers : Rule F → Option F → Option F
  triggers rule none = none
  triggers rule (some value) =
      if compare_by (lower rule.operator) value rule.threshold then some value else none

  -- The value at which a rule triggers on a result.
  abbrev pub matched : Rule F → ScanResult ℕ J → Option F
  matched rule res =
      if text_eq rule.scanner res.scanner_name || text_eq rule.scanner (codes "*")
      then triggers rule (number_of (get rule.metric res.metadata))
      else none

  abbrev pub rule_finding : Rule F → F → Finding J
  rule_finding rule value = record {
    id = codes "rule_" ++ lower rule.name;
    severity = rule.severity;
    category = codes "rule";
    description =
        if is_empty rule.description
        then codes "Rule " ++ (rule.name ++ (codes " triggered for " ++ rule.metric))
        else rule.description;
    evidence =
        (codes "metric", string rule.metric)
        ∷ (codes "value", other (nums.of_float value))
        ∷ (codes "threshold", other (nums.of_float rule.threshold))
        ∷ (codes "operator", string rule.operator)
        ∷ [];
    remediation = codes "Review rule configuration and system state.";
  }

  abbrev pub found_by : Rule F → Option F → List (Finding J)
  found_by rule none = []
  found_by rule (some value) = rule_finding rule value ∷ []

  -- `Evaluate`
  unfoldable pub evaluate : List (Rule F) → ScanResult ℕ J → List (Finding J)
  unfolding get
  evaluate [] res = []
  evaluate (rule ∷ rules) res = found_by rule (matched rule res) ++ evaluate rules res
