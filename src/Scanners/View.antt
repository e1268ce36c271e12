-- ===== src/Scanners/View.antt =====
-- web/src/pages/Scanners.tsx: what the page renders. A click on a scanner's button is the event of
-- the scanner's name.
pub mod Clicks
use ar_csent.Prelude.{Bool, not, none, some, List, [], ◌∷◌, ◌++◌, map, String, is_empty}
use ar_csent.Text.{Text}
use ar_csent.Jsx.{class_name, prop, on_click, Node, text_node, el, lit, div, icon, when, para}
use ar_csent.Components.{
  ClassValue, BadgeVariant, ButtonVariant, ButtonSize, badge, button, card, card_header, card_title,
  card_content,
}
use ar_csent.Scanners.{State, is_loading}

module _ (clsx : List ClassValue → String) where
  trigger_button : Text → Bool → Node Text
  trigger_button plugin loading =
      button clsx
        (record {
          class = some "w-full";
          variant = ButtonVariant.secondary;
          size = ButtonSize.sm;
          is_loading = loading;
          props = on_click plugin ∷ [];
        })
        (when (not loading) (icon "Play" "mr-2 h-3 w-3") ++ lit "Trigger Scan" ∷ [])

  scanner_card : State → Text → Node Text
  scanner_card s plugin = card clsx none (prop "key" plugin ∷ []) (
      card_header clsx (some "flex flex-row items-center justify-between space-y-0 pb-2") [] (
        card_title clsx (some "text-base font-medium") [] (text_node plugin ∷ [])
        ∷ badge clsx none BadgeVariant.outline [] (lit "Idle" ∷ [])
        ∷ [])
      ∷ card_content clsx none []
          (div "pt-4" (trigger_button plugin (is_loading plugin s) ∷ []) ∷ [])
      ∷ [])

  no_scanners : Bool → List (Node Text)
  no_scanners empty = when empty (
      div "col-span-full text-center text-[var(--muted)] py-12"
        (lit "No scanners registered. Check your configuration." ∷ []))

  unfoldable pub view : State → Node Text
  unfolding scanner_card trigger_button no_scanners
  view s = div "space-y-6" (
      el "h1" (class_name "text-3xl font-bold tracking-tight" ∷ []) (lit "Scanners" ∷ [])
      ∷ para "text-[var(--muted)]" (lit "Manage and trigger security scanners." ∷ [])
      ∷ div "grid gap-4 md:grid-cols-2 lg:grid-cols-3"
          (map (scanner_card s) s.scanners ++ no_scanners (is_empty s.scanners))
      ∷ [])
