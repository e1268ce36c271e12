-- ===== src/Examples/Pages.antt =====
-- The other pages and the shared components at concrete inputs.
use ar_csent.Prelude.{◌≢◌, ◌↔◌, Option, none, some, List, [], ◌∷◌, pos, All, if◌then◌else◌}
use ar_csent.Text.{Text, codes, text_eq}
use ar_csent.Number.Print.{show_int}
use ar_csent.Api.Types.{Finding}
use ar_csent.Jsx.{lit}
use ar_csent.Findings.View.{Dates, Page}
use ar_csent.Findings.View
use ar_csent.Findings.View.Rows.{HasTime, view-ne-none_iff}
use ar_csent.Settings.{World, mount, edit, handle_save, wait}
use ar_csent.Settings.Steps.{Reach, here, next, edited, saving, waiting}
use ar_csent.Examples.Data.{first_class, storage}

-- Findings.

-- A calendar that knows one date.
abbrev pub dates : Dates
dates = record {
  parse_time =
      λ t. if text_eq t (codes "2024-01-01T00:00:00Z") then some (pos 1704067200000) else none;
  format = show_int;
}

abbrev finding_at : Text → Finding
finding_at time = record {
  scanner_name = codes "system.disk_usage";
  severity = codes "High";
  category = codes "disk";
  description = codes "disk almost full";
  evidence = none;
  occurred_at = time;
  remediation = none;
}

abbrev dated : List Finding
dated = finding_at (codes "2024-01-01T00:00:00Z") ∷ finding_at [] ∷ []

view-ne-none_iff_example :
    (View.view first_class dates (finding_at (codes "soon") ∷ dated) ≢ none)
    ↔ All (HasTime dates) (finding_at (codes "soon") ∷ dated)
view-ne-none_iff_example = view-ne-none_iff first_class dates (finding_at (codes "soon") ∷ dated)

abbrev pub or_lit : Option (Page first_class dates) → Page first_class dates
or_lit none = lit ""
or_lit (some page) = page

-- Settings.

abbrev opened : World
opened = mount storage 1000

abbrev second_save : World
second_save = handle_save (wait 500 (handle_save (edit (codes "new") opened)))

second_save-Reach : Reach storage 1000 second_save
second_save-Reach =
    next (next (next (next here (edited (codes "new"))) saving) (waiting 500)) saving
