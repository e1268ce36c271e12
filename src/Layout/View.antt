-- ===== src/Layout/View.antt =====
-- web/src/Layout.tsx: what the frame of every page renders. The one event is a click on "Logout".
use ar_csent.Prelude.{Bool, List, [], ◌∷◌, map, String, if◌then◌else◌}
use ar_csent.Text.{Text, codes}
use ar_csent.Jsx.{class_name, prop, on_click, Node, text_node, el, lit, div, span}
use ar_csent.Components.{ClassValue, name, cn}
use ar_csent.Layout.{NavItem, nav_items, is_active}

pub data Event : Type 0 where
  logout : Event

abbrev pub active_class : String
active_class = "bg-[var(--accent)]/10 text-[var(--accent)]"

abbrev pub idle_class : String
idle_class = "text-[var(--muted)] hover:bg-[var(--muted)]/5 hover:text-[var(--ink)]"

module _ (clsx : List ClassValue → String) where
  nav_class : Bool → String
  unfolding cn
  nav_class active = cn clsx (
      name "flex items-center gap-3 px-3 py-2 rounded-md text-sm font-medium transition-colors"
      ∷ name (if active then active_class else idle_class)
      ∷ [])

  nav_link : Text → NavItem → Node Event
  nav_link location item = el "Link" (prop "key" item.href ∷ prop "href" item.href ∷ []) (
      el "a" (class_name (nav_class (is_active location item)) ∷ [])
        (el "Icon" (prop "size" (codes "18") ∷ []) [] ∷ text_node item.label ∷ [])
      ∷ [])

  unfoldable pub view : Text → List (Node Event) → Node Event
  unfolding nav_class nav_link
  view location children = div "flex min-h-screen bg-[var(--paper)]" (
      el "aside"
        (class_name
            "w-64 border-r border-[var(--card-border)] bg-[var(--card)] px-4 py-6 flex flex-col"
          ∷ [])
        (div "flex items-center gap-2 px-2 mb-8" (
            div
              "w-8 h-8 rounded-full bg-[var(--accent)] flex items-center justify-center text-white font-bold"
              (lit "A" ∷ [])
            ∷ span "font-bold text-lg tracking-tight" (lit "ArCsent" ∷ [])
            ∷ [])
          ∷ el "nav" (class_name "flex-1 space-y-1" ∷ []) (map (nav_link location) nav_items)
          ∷ el "button"
              (on_click logout
                ∷ class_name
                    "flex items-center gap-3 px-3 py-2 rounded-md text-sm font-medium text-[var(--muted)] hover:bg-[var(--danger)]/10 hover:text-[var(--danger)] transition-colors mt-auto"
                ∷ [])
              (el "LogOut" (prop "size" (codes "18") ∷ []) [] ∷ lit "Logout" ∷ [])
          ∷ [])
      ∷ el "main" (class_name "flex-1 overflow-auto" ∷ []) (div "container py-8" children ∷ [])
      ∷ [])
