-- ===== src/Components.antt =====
-- web/src/components and web/src/lib/utils.ts: the shared components. `clsx` is a package; the
-- components take it as their argument.
pub mod Laws
use ar_csent.Prelude.{Bool, true, false, ◌||◌, Option, none, some, List, [], ◌∷◌, ◌++◌, String}
use ar_csent.Text.{Text}
use ar_csent.Jsx.{Attr, class_name, disabled, Node, el, when, is_disabled_from}

-- What `clsx` accepts, as far as the client uses it.
pub data ClassValue : Type 0 where
  name : String → ClassValue
  off : ClassValue
  undefined : ClassValue

abbrev pub class_of : Option String → ClassValue
class_of none = undefined
class_of (some c) = name c

pub data BadgeVariant : Type 0 where
  default success warning danger outline : BadgeVariant

pub data ButtonVariant : Type 0 where
  primary secondary ghost danger : ButtonVariant

pub data ButtonSize : Type 0 where
  sm md lg : ButtonSize

abbrev badge_variants : BadgeVariant → String
badge_variants default = "bg-[var(--muted)]/10 text-[var(--muted-foreground)]"
badge_variants success = "bg-[var(--success)]/10 text-[var(--success)]"
badge_variants warning = "bg-[var(--warning)]/10 text-[var(--warning)]"
badge_variants danger = "bg-[var(--danger)]/10 text-[var(--danger)]"
badge_variants outline = "border border-[var(--card-border)] text-[var(--ink)]"

abbrev variant_classes : ButtonVariant → String
variant_classes primary = "btn-primary"
variant_classes secondary = "btn-secondary"
variant_classes ghost = "btn-ghost"
variant_classes danger = "bg-[var(--danger)] text-white hover:opacity-90"

abbrev size_classes : ButtonSize → String
size_classes sm = "h-8 px-3 text-xs"
size_classes md = "h-10 px-4 py-2"
size_classes lg = "h-12 px-8 text-lg"

-- `isLoading && "…"`
abbrev class_when : Bool → String → ClassValue
class_when true c = name c
class_when false c = off

pub record ButtonProps (E : Type 0) : Type 0 where
  pub class : Option String
  pub variant : ButtonVariant
  pub size : ButtonSize
  pub is_loading : Bool
  pub props : List (Attr E)

unfoldable pub cn : (List ClassValue → String) → List ClassValue → String
cn clsx inputs = clsx inputs

module _ {E : Type 0} (clsx : List ClassValue → String) where
  unfoldable pub badge : Option String → BadgeVariant → List (Attr E) → List (Node E) → Node E
  unfolding cn
  badge class variant props children =
      el "span"
        (class_name (cn clsx (name "badge" ∷ name (badge_variants variant) ∷ class_of class ∷ []))
          ∷ props)
        children

  -- The properties that are spread last come behind the button's own `disabled`.
  unfoldable pub button : ButtonProps E → List (Node E) → Node E
  unfolding cn
  button b children =
      el "button"
        (class_name (
            cn clsx (
              name "btn"
              ∷ name (variant_classes b.variant)
              ∷ name (size_classes b.size)
              ∷ class_when b.is_loading "opacity-70 cursor-wait"
              ∷ class_of b.class
              ∷ []))
          ∷ disabled (b.is_loading || is_disabled_from false b.props)
          ∷ b.props)
        (when b.is_loading (el "Loader2" (class_name "mr-2 h-4 w-4 animate-spin" ∷ []) [])
          ++ children)

  -- An element with a first class, the class of the caller, and the properties of the caller.
  abbrev pub styled : String → String → Option String → List (Attr E) → List (Node E) → Node E
  styled tag first class props children =
      el tag (class_name (cn clsx (name first ∷ class_of class ∷ [])) ∷ props) children

  unfoldable pub card : Option String → List (Attr E) → List (Node E) → Node E
  unfolding cn
  card class props children = styled "div" "card" class props children

  unfoldable pub card_header : Option String → List (Attr E) → List (Node E) → Node E
  unfolding cn
  card_header class props children =
      styled "div" "flex flex-col space-y-1.5 pb-4" class props children

  unfoldable pub card_title : Option String → List (Attr E) → List (Node E) → Node E
  unfolding cn
  card_title class props children =
      styled "h3" "font-semibold leading-none tracking-tight" class props children

  unfoldable pub card_content : Option String → List (Attr E) → List (Node E) → Node E
  unfolding cn
  card_content class props children =
      el "div" (class_name (cn clsx (class_of class ∷ [])) ∷ props) children

  -- Table.tsx. `ref` is forwarded to the element, and is not modelled.
  unfoldable pub table : Option String → List (Attr E) → List (Node E) → Node E
  unfolding cn
  table class props children =
      el "div" (class_name "table-container" ∷ [])
        (styled "table" "table w-full caption-bottom text-sm" class props children ∷ [])

  unfoldable pub table_header : Option String → List (Attr E) → List (Node E) → Node E
  unfolding cn
  table_header class props children = styled "thead" "[&_tr]:border-b" class props children

  unfoldable pub table_body : Option String → List (Attr E) → List (Node E) → Node E
  unfolding cn
  table_body class props children = styled "tbody" "[&_tr:last-child]:border-0" class props children

  unfoldable pub table_row : Option String → List (Attr E) → List (Node E) → Node E
  unfolding cn
  table_row class props children =
      styled "tr"
        "border-b transition-colors hover:bg-[var(--muted)]/5 data-[state=selected]:bg-[var(--muted)]/10"
        class props children

  unfoldable pub table_head : Option String → List (Attr E) → List (Node E) → Node E
  unfolding cn
  table_head class props children =
      styled "th"
        "h-12 px-4 text-left align-middle font-medium text-[var(--muted)] [&:has([role=checkbox])]:pr-0"
        class props children

  unfoldable pub table_cell : Option String → List (Attr E) → List (Node E) → Node E
  unfolding cn
  table_cell class props children =
      styled "td" "p-4 align-middle [&:has([role=checkbox])]:pr-0" class props children
