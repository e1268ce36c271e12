-- ===== src/Dashboard/View.antt =====
-- web/src/pages/Dashboard.tsx: what the page renders.
pub mod Clicks
pub mod Badges
use ar_csent.Prelude.{
  Bool, true, false, not, Option, none, some, List, [], ◌∷◌, ◌++◌, map, String, is_empty,
  if◌then◌else◌,
}
use ar_csent.Text.{Text, codes}
use ar_csent.Dict.{Dict, get}
use ar_csent.Number.{Number}
use ar_csent.Number.Print.{show_nat}
use ar_csent.Api.Types.{SystemStatus, SignatureSourceStatus, SignatureStatus}
use ar_csent.Jsx.{class_name, prop, on_click, Node, text_node, el, lit, div, span, para, icon, when}
use ar_csent.Components.{
  ClassValue, BadgeVariant, ButtonVariant, ButtonSize, ButtonProps, badge, button, card,
  card_header, card_title, card_content,
}
use ar_csent.Server.Gauge
use ar_csent.Dashboard.{State, Event, update_now, refresh}
use ar_csent.Dashboard.Sources.{has_error, source_list, total_sources, ok_sources}
use ar_csent.Dashboard.Format.{Platform, format_time, show_size}

-- `status?.status || "Unknown"`
unfoldable pub status_text : Option SystemStatus → Text
status_text none = codes "Unknown"
status_text (some s) = if is_empty s.status then codes "Unknown" else s.status

unfoldable pub root_text : Option SystemStatus → Text
root_text none = codes "Secure mode"
root_text (some s) =
    if s.running_as_root then codes "Running as root (Warning)" else codes "Secure mode"

abbrev pub shown_or : Platform → Text → Option Number → Text
shown_or p missing none = missing
shown_or p missing (some n) = p.show_number n

-- `metrics[name] ?? missing`
unfoldable pub metric_text : Platform → Text → Dict Number → Text → Text
unfolding get
metric_text p missing metrics name = shown_or p missing (get name metrics)

abbrev last_run_of : Option SignatureStatus → Option Text
last_run_of none = none
last_run_of (some s) = s.last_run

module _ (clsx : List ClassValue → String) (p : Platform) where
  -- A card of the top row: a title, an icon, and the content.
  abbrev summary_card : String → String → List (Node Event) → Node Event
  summary_card title icon_name content = card clsx none [] (
      card_header clsx (some "flex flex-row items-center justify-between space-y-0 pb-2") [] (
        card_title clsx (some "text-sm font-medium") [] (lit title ∷ [])
        ∷ icon icon_name "h-4 w-4 text-[var(--muted)]"
        ∷ [])
      ∷ card_content clsx none [] content
      ∷ [])

  -- The four cards of the top row.
  summary : State → Node Event
  summary s = div "grid gap-4 md:grid-cols-2 lg:grid-cols-4" (
      summary_card "System Status" "Activity" (
        div "text-2xl font-bold capitalize" (text_node (status_text s.status) ∷ [])
        ∷ para "text-xs text-[var(--muted)]" (text_node (root_text s.status) ∷ [])
        ∷ [])
      ∷ summary_card "Active Findings" "Shield" (
          div "text-2xl font-bold"
            (text_node (metric_text p (codes "—") s.metrics Gauge.findings_total) ∷ [])
          ∷ para "text-xs text-[var(--muted)]" (lit "Total findings found" ∷ [])
          ∷ [])
      ∷ summary_card "Scanners" "HardDrive" (
          div "text-2xl font-bold"
            (text_node (metric_text p (codes "—") s.metrics Gauge.plugins_total) ∷ [])
          ∷ div "text-xs text-[var(--muted)] flex justify-between" (
              el "span" [] (
                lit "Jobs: "
                ∷ text_node (metric_text p (codes "0") s.metrics Gauge.jobs_total)
                ∷ [])
              ∷ el "span" [] (
                  lit "Results: "
                  ∷ text_node (metric_text p (codes "0") s.metrics Gauge.results_total)
                  ∷ [])
              ∷ [])
          ∷ [])
      ∷ summary_card "Signatures" "Database" (
          div "text-2xl font-bold" (
            text_node (show_nat (ok_sources (source_list s.signature_status)))
            ∷ lit " "
            ∷ span "text-sm font-normal text-[var(--muted)]" (
                lit "/ "
                ∷ text_node (show_nat (total_sources (source_list s.signature_status)))
                ∷ lit " ok"
                ∷ [])
            ∷ [])
          ∷ para "text-xs text-[var(--muted)]" (
              lit "Last update: " ∷ text_node (format_time p (last_run_of s.signature_status)) ∷ [])
          ∷ [])
      ∷ [])

  -- The icon and the badge of a source, by whether its `error` is set.
  abbrev error_icon : Bool → Node Event
  error_icon true = icon "AlertCircle" "h-5 w-5 text-[var(--danger)]"
  error_icon false = icon "CheckCircle" "h-5 w-5 text-[var(--success)]"

  abbrev error_badge : Bool → List (Node Event)
  error_badge failed =
      when failed (badge clsx none BadgeVariant.danger [] (lit "Error" ∷ []))
      ++ when (not failed) (badge clsx none BadgeVariant.outline [] (lit "Synced" ∷ []))

  -- One source in the list.
  pub source_row : SignatureSourceStatus → Node Event
  source_row src =
      el "div"
        (class_name
            "flex items-center justify-between border-b border-[var(--card-border)] pb-2 last:border-0 last:pb-0"
          ∷ prop "key" src.source
          ∷ [])
        (div "flex items-center gap-3" (
            error_icon (has_error src)
            ∷ el "div" [] (
                div "font-medium text-sm" (text_node src.source ∷ [])
                ∷ div "text-xs text-[var(--muted)]" (
                    text_node (show_size src.bytes)
                    ∷ lit " • "
                    ∷ text_node (format_time p src.updated_at)
                    ∷ [])
                ∷ [])
            ∷ [])
          ∷ error_badge (has_error src))

  -- `sourceList.length === 0 ? … : …`
  pub source_rows : List SignatureSourceStatus → Node Event
  source_rows [] =
      div "text-center py-6 text-[var(--muted)]" (lit "No signature sources configured." ∷ [])
  source_rows (src ∷ sources) = div "space-y-4" (map source_row (src ∷ sources))

  abbrev action_button : ButtonVariant → Bool → Event → String → Node Event
  action_button variant loading event label =
      button clsx
        (record {
          class = none;
          variant = variant;
          size = ButtonSize.sm;
          is_loading = loading;
          props = on_click event ∷ [];
        })
        (icon "RefreshCw" "mr-2 h-3 w-3" ∷ lit label ∷ [])

  signatures_card : State → Node Event
  signatures_card s = card clsx (some "col-span-4") [] (
      card_header clsx (some "flex flex-row items-center justify-between") [] (
        card_title clsx none [] (lit "Signatures Status" ∷ [])
        ∷ action_button ButtonVariant.secondary s.sig_loading update_now "Update Now"
        ∷ [])
      ∷ card_content clsx none [] (
          source_rows (source_list s.signature_status)
          ∷ when (not (is_empty s.sig_error)) (
              div "mt-4 p-3 bg-[rgba(164,31,31,0.1)] text-[var(--danger)] text-sm rounded-md"
                (text_node s.sig_error ∷ [])))
      ∷ [])

  -- A line of the overview: its label, the class of its number, and the gauge.
  abbrev overview_line : State → String → String → Text → Node Event
  overview_line s label c gauge = div "flex justify-between items-center" (
      span "text-sm font-medium" (lit label ∷ [])
      ∷ span c (text_node (metric_text p (codes "0") s.metrics gauge) ∷ [])
      ∷ [])

  metrics_card : State → Node Event
  metrics_card s = card clsx (some "col-span-3") [] (
      card_header clsx none [] (card_title clsx none [] (lit "Metrics Overview" ∷ []) ∷ [])
      ∷ card_content clsx none [] (
          div "space-y-4" (
            overview_line s "Scans Completed" "text-sm font-bold text-[var(--accent)]"
              Gauge.results_total
            ∷ overview_line s "Findings Detected" "text-sm font-bold text-[var(--warning)]"
                Gauge.findings_total
            ∷ overview_line s "Active Plugins" "text-sm font-bold" Gauge.plugins_total
            ∷ overview_line s "Scheduled Jobs" "text-sm font-bold" Gauge.jobs_total
            ∷ [])
          ∷ div "mt-6 flex justify-end"
              (action_button ButtonVariant.ghost s.metrics_loading refresh "Refresh Metrics" ∷ [])
          ∷ when (not (is_empty s.metrics_error))
              (div "mt-2 text-xs text-[var(--danger)]" (text_node s.metrics_error ∷ [])))
      ∷ [])

  unfoldable pub view : State → Node Event
  unfolding summary signatures_card metrics_card
  view s = div "space-y-6" (
      el "h1" (class_name "text-3xl font-bold tracking-tight" ∷ []) (lit "Dashboard" ∷ [])
      ∷ summary s
      ∷ div "grid gap-4 md:grid-cols-2 lg:grid-cols-7" (signatures_card s ∷ metrics_card s ∷ [])
      ∷ [])
