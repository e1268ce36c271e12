-- ===== src/Scanners/View/Clicks.antt =====
-- web/src/pages/Scanners.tsx: which scanners the user can trigger.
use ar_csent.Prelude.{
  ◌≡◌, refl, ◌∙◌, ap, Bool, true, false, not, List, [], ◌∷◌, ◌++◌, map, flat_map, filter, String,
  is_empty, if◌then◌else◌, append-nil, arith,
}
use ar_csent.Text.{Text}
use ar_csent.Jsx.{events, events_all, nodes, own_event}
use ar_csent.Jsx.Events.{events_all-append, events_all-map}
use ar_csent.Components.{ClassValue, badge, button, card, card_header, card_title, card_content}
use ar_csent.Scanners.{State, is_loading}
use ar_csent.Scanners.View.{trigger_button, scanner_card, no_scanners, view}

module _ (clsx : List ClassValue → String) where
  events-trigger_button :
      (plugin : Text) (loading : Bool)
      → events (trigger_button clsx plugin loading) ≡ (if loading then [] else plugin ∷ [])
  unfolding trigger_button button events own_event
  events-trigger_button plugin true = refl
  events-trigger_button plugin false = refl

  events-scanner_card :
      (s : State) (plugin : Text)
      → events (scanner_card clsx s plugin) ≡ (if is_loading plugin s then [] else plugin ∷ [])
  unfolding scanner_card card card_header card_title card_content badge events own_event
  events-scanner_card s plugin =
      rw (events-trigger_button plugin (is_loading plugin s)) (simp append-nil)

  events-no_scanners : (empty : Bool) → events_all (nodes (no_scanners clsx empty)) ≡ []
  unfolding no_scanners events own_event
  events-no_scanners true = refl
  events-no_scanners false = refl

  flat_map-filter :
      (s : State) (plugins : List Text)
      → flat_map (λ plugin. if is_loading plugin s then [] else plugin ∷ []) plugins
        ≡ filter (λ plugin. not (is_loading plugin s)) plugins
  flat_map-filter s [] = refl
  flat_map-filter s (x ∷ xs) = ground (arith, flat_map-filter s xs)

  -- The page offers a trigger for exactly the listed scanners that are not loading, in order.
  pub events-view_idle :
      (s : State) → events (view clsx s) ≡ filter (λ plugin. not (is_loading plugin s)) s.scanners
  unfolding view events own_event
  events-view_idle s =
      ap (λ r. r ++ [])
        (events_all-append (map (scanner_card clsx s) s.scanners)
            (no_scanners clsx (is_empty s.scanners))
          ∙ rw (events-no_scanners (is_empty s.scanners)) (
              append-nil _
              ∙ events_all-map (scanner_card clsx s)
                  (λ plugin. if is_loading plugin s then [] else plugin ∷ [])
                  (events-scanner_card s) s.scanners
              ∙ flat_map-filter s s.scanners))
      ∙ append-nil _
