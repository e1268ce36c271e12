-- ===== src/Settings/View.antt =====
-- web/src/pages/Settings.tsx: what the page renders. The one event is a click on the button; the
-- input's `onChange` is the operation `edit`.
use ar_csent.Prelude.{Bool, false, not, none, some, List, [], ◌∷◌, String, is_empty}
use ar_csent.Text.{Text, codes}
use ar_csent.Jsx.{class_name, prop, on_click, Node, text_node, el, lit, div, para, when}
use ar_csent.Components.{
  ClassValue, ButtonVariant, ButtonSize, button, card, card_header, card_title, card_content,
}
use ar_csent.Settings.{State}

pub data Event : Type 0 where
  save : Event

module _ (clsx : List ClassValue → String) where
  status_line : Bool → Text → List (Node Event)
  status_line shown status =
      when shown (para "text-sm font-medium text-[var(--success)]" (text_node status ∷ []))

  token_input : Text → Node Event
  token_input token = div "space-y-2" (
      el "label"
        (class_name
            "text-sm font-medium leading-none peer-disabled:cursor-not-allowed peer-disabled:opacity-70"
          ∷ [])
        (lit "API Token" ∷ [])
      ∷ el "input"
          (prop "type" (codes "password")
            ∷ prop "value" token
            ∷ class_name
                "flex h-10 w-full rounded-md border border-[var(--card-border)] bg-transparent px-3 py-2 text-sm placeholder:text-[var(--muted)] focus:outline-none focus:ring-2 focus:ring-[var(--accent)] focus:ring-offset-2"
            ∷ prop "placeholder" (codes "Enter your API token")
            ∷ [])
          []
      ∷ para "text-xs text-[var(--muted)]"
          (lit "The token required to authenticate with the local ArCsent daemon." ∷ [])
      ∷ [])

  unfoldable pub view : State → Node Event
  unfolding status_line token_input
  view s = div "space-y-6" (
      el "h1" (class_name "text-3xl font-bold tracking-tight" ∷ []) (lit "Settings" ∷ [])
      ∷ div "grid gap-6 max-w-xl" (
          card clsx none [] (
            card_header clsx none [] (card_title clsx none [] (lit "Connection Settings" ∷ []) ∷ [])
            ∷ card_content clsx (some "space-y-4") [] (
                token_input s.token
                ∷ button clsx
                    (record {
                      class = none;
                      variant = ButtonVariant.primary;
                      size = ButtonSize.md;
                      is_loading = false;
                      props = on_click save ∷ [];
                    })
                    (lit "Save Configuration" ∷ [])
                ∷ status_line (not (is_empty s.status)) s.status)
            ∷ [])
          ∷ [])
      ∷ [])
