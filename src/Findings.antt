-- ===== src/Findings.antt =====
-- web/src/pages/Findings.tsx: the table of findings.
pub mod Severity
pub mod View
use ar_csent.Prelude.{Bool, ◌||◌, List, [], if◌then◌else◌}
use ar_csent.Text.{Text, codes, text_eq, to_lower_case}
use ar_csent.Api.{Result, ok, err}
use ar_csent.Api.Types.{Finding}
use ar_csent.Components.{BadgeVariant}

-- The page's state is the list of findings; a failed call is only logged.
unfoldable pub load : Result (List Finding) → List Finding → List Finding
load (ok found) findings = found
load (err message) findings = findings

-- The `switch` of `getSeverityBadge` on the lower-case severity.
abbrev variant_of : Text → BadgeVariant
variant_of s =
    if text_eq s (codes "critical") || text_eq s (codes "high")
    then BadgeVariant.danger
    else if text_eq s (codes "medium")
    then BadgeVariant.warning
    else if text_eq s (codes "low")
    then BadgeVariant.outline
    else BadgeVariant.default

unfoldable pub severity_variant : Text → BadgeVariant
unfolding to_lower_case text_eq
severity_variant severity = variant_of (to_lower_case severity)
