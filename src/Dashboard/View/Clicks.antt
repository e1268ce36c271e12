-- ===== src/Dashboard/View/Clicks.antt =====
-- web/src/pages/Dashboard.tsx: what the user can click in each state of the page.
use ar_csent.Prelude.{
  ◌≡◌, refl, Bool, true, false, not, List, [], ◌∷◌, ◌++◌, map, String, is_empty, if◌then◌else◌,
  append-nil,
}
use ar_csent.Text.{Text}
use ar_csent.Api.Types.{SignatureSourceStatus}
use ar_csent.Jsx.{div, when, text_node, events, events_all, nodes, own_event}
use ar_csent.Components.{
  ClassValue, ButtonVariant, badge, button, card, card_header, card_title, card_content,
}
use ar_csent.Dashboard.{State, Event, update_now, refresh}
use ar_csent.Dashboard.Sources.{source_list, has_error}
use ar_csent.Dashboard.Format.{Platform}
use ar_csent.Dashboard.View.{
  action_button, error_icon, error_badge, source_row, source_rows, summary, signatures_card,
  metrics_card, view,
}

module _ (clsx : List ClassValue → String) (p : Platform) where
  events-action_button :
      (variant : ButtonVariant) (loading : Bool) (e : Event) (label : String)
      → events (action_button clsx p variant loading e label) ≡ (if loading then [] else e ∷ [])
  unfolding button events own_event
  events-action_button variant true e label = refl
  events-action_button variant false e label = refl

  events-error_icon : (failed : Bool) → events (error_icon clsx p failed) ≡ []
  unfolding events own_event
  events-error_icon true = refl
  events-error_icon false = refl

  events-error_badge : (failed : Bool) → events_all (nodes (error_badge clsx p failed)) ≡ []
  unfolding badge events own_event
  events-error_badge true = refl
  events-error_badge false = refl

  events-source_row : (src : SignatureSourceStatus) → events (source_row clsx p src) ≡ []
  unfolding source_row events own_event
  events-source_row src = rw (events-error_icon (has_error src), events-error_badge (has_error src))

  events-source_rows :
      (sources : List SignatureSourceStatus) → events (source_rows clsx p sources) ≡ []
  unfolding source_rows events own_event
  events-source_rows [] = refl
  events-source_rows (src ∷ sources) = rw (events-source_row src) (rows sources)
    where
      rows :
          (xs : List SignatureSourceStatus) → events_all (nodes (map (source_row clsx p) xs)) ≡ []
      rows [] = refl
      rows (x ∷ xs) = rw (events-source_row x) (rows xs)

  -- The message of an error adds no event.
  events-message :
      (shown : Bool) (c : String) (message : Text)
      → events_all {E = Event} (nodes (when shown (div c (text_node message ∷ [])))) ≡ []
  unfolding events own_event
  events-message true c message = refl
  events-message false c message = refl

  events-summary : (s : State) → events (summary clsx p s) ≡ []
  unfolding summary card card_header card_title card_content events own_event
  events-summary s = refl

  events-signatures_card :
      (s : State)
      → events (signatures_card clsx p s) ≡ (if s.sig_loading then [] else update_now ∷ [])
  unfolding signatures_card card card_header card_title card_content events own_event
  events-signatures_card s =
      rw
        (
          events-action_button ButtonVariant.secondary s.sig_loading update_now "Update Now",
          events-source_rows (source_list s.signature_status),
          events-message (not (is_empty s.sig_error)) _ s.sig_error,
        )
        (simp append-nil)

  events-metrics_card :
      (s : State)
      → events (metrics_card clsx p s) ≡ (if s.metrics_loading then [] else refresh ∷ [])
  unfolding metrics_card card card_header card_title card_content events own_event
  events-metrics_card s =
      rw
        (
          events-action_button ButtonVariant.ghost s.metrics_loading refresh "Refresh Metrics",
          events-message (not (is_empty s.metrics_error)) _ s.metrics_error,
        )
        (simp append-nil)

  -- In every state the page offers exactly these clicks: "Update Now" unless a signature call is
  -- shown as loading, and "Refresh Metrics" unless the metrics are.
  pub events-view :
      (s : State)
      → events (view clsx p s)
        ≡ (if s.sig_loading then [] else update_now ∷ [])
          ++ (if s.metrics_loading then [] else refresh ∷ [])
  unfolding view events own_event
  events-view s =
      rw (events-summary s, events-signatures_card s, events-metrics_card s) (simp append-nil)
