-- ===== src/Findings/View.antt =====
-- web/src/pages/Findings.tsx: what the page renders. `format` of date-fns throws on a date that is
-- not valid, and the page with it: rendering has the outcome `none` then.
pub mod Rows
use ar_csent.Prelude.{
  ℕ, suc, Bool, Option, none, some, List, [], ◌∷◌, ◌++◌, String, is_empty, ℤ, if◌then◌else◌,
}
use ar_csent.Text.{Text, codes}
use ar_csent.Number.Print.{show_nat}
use ar_csent.Api.Types.{Finding}
use ar_csent.Jsx.{class_name, prop, Node, text_node, el, lit, div, when}
use ar_csent.Components.{
  ClassValue, BadgeVariant, badge, card, card_header, card_title, card_content, table, table_header,
  table_body, table_row, table_head, table_cell,
}
use ar_csent.Findings.{severity_variant}

-- `parse_time` is `new Date(text).getTime()`, `none` for a date that is not valid; `format` is that
-- of date-fns with "PPpp" on a valid date.
pub record Dates : Type 0 where
  pub parse_time : Text → Option ℤ
  pub format : ℤ → Text

infixl 5 ◌>>=◌
abbrev ◌>>=◌ {ℓ κ} : {A : Type ℓ} {B : Type κ} → Option A → (A → Option B) → Option B
none >>= f = none
some a >>= f = f a

-- `occurred_at ? format(new Date(occurred_at), "PPpp") : "-"`
unfoldable pub time_text : Dates → Text → Option Text
time_text d [] = some (codes "-")
time_text d (c ∷ s) = do t ← d.parse_time (c ∷ s); some (d.format t)

module _ (clsx : List ClassValue → String) (d : Dates) where
  -- The pages have no events of their own.
  abbrev pub Page : Type 0
  Page = Node (Unit {0})

  abbrev severity_badge : Text → Page
  severity_badge severity = badge clsx none (severity_variant severity) [] (text_node severity ∷ [])

  abbrev plain_cell : Page → Page
  plain_cell content = table_cell clsx none [] (content ∷ [])

  abbrev row_cells : Finding → Text → List Page
  row_cells finding time =
      plain_cell (severity_badge finding.severity)
      ∷ plain_cell (badge clsx none BadgeVariant.outline [] (text_node finding.category ∷ []))
      ∷ plain_cell (text_node finding.scanner_name)
      ∷ plain_cell (text_node finding.description)
      ∷ plain_cell (text_node time)
      ∷ []

  unfoldable pub finding_row : ℕ → Finding → Option Page
  finding_row i finding = do
    time ← time_text d finding.occurred_at
    some (table_row clsx none (prop "key" (show_nat i) ∷ []) (row_cells finding time))

  -- `findings.map((finding, i) => …)`, from index `i` on.
  unfoldable pub finding_rows : ℕ → List Finding → Option (List Page)
  unfolding finding_row
  finding_rows i [] = some []
  finding_rows i (finding ∷ findings) = do
    row ← finding_row i finding
    rows ← finding_rows (suc i) findings
    some (row ∷ rows)

  abbrev no_findings : Bool → List Page
  no_findings empty = when empty (
      table_row clsx none [] (
        table_cell clsx (some "text-center py-8 text-[var(--muted)]")
          (prop "colSpan" (codes "5") ∷ []) (lit "No findings recorded." ∷ [])
        ∷ []))

  abbrev head_cell : String → Page
  head_cell label = table_head clsx none [] (lit label ∷ [])

  abbrev pub page_of : List Page → Page
  page_of body = div "space-y-6" (
      el "h1" (class_name "text-3xl font-bold tracking-tight" ∷ []) (lit "Findings" ∷ [])
      ∷ card clsx none [] (
          card_header clsx none [] (card_title clsx none [] (lit "Recent Activity" ∷ []) ∷ [])
          ∷ card_content clsx none [] (
              table clsx none [] (
                table_header clsx none [] (
                  table_row clsx none [] (
                    head_cell "Severity"
                    ∷ head_cell "Category"
                    ∷ head_cell "Scanner"
                    ∷ head_cell "Description"
                    ∷ head_cell "Time"
                    ∷ [])
                  ∷ [])
                ∷ table_body clsx none [] body
                ∷ [])
              ∷ [])
          ∷ [])
      ∷ [])

  unfoldable pub view : List Finding → Option Page
  unfolding finding_rows
  view findings = do
    rows ← finding_rows 0 findings
    some (page_of (rows ++ no_findings (is_empty findings)))
