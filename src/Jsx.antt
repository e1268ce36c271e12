-- ===== src/Jsx.antt =====
-- What a React component renders: a tree of elements, with the parts of it that a user meets. The
-- events of a tree are of the page's own type `E`; a handler is the event that it stands for.
pub mod Events
use ar_csent.Prelude.{
  Bool, true, false, Option, none, some, List, [], ◌∷◌, ◌++◌, String, if◌then◌else◌,
}
use text.Mathlib.Text.{◌==◌}
use ar_csent.Text.{Text, codes}

pub data Attr (E : Type 0) : Type 0 where
  class_name : String → Attr E
  prop : String → Text → Attr E
  disabled : Bool → Attr E
  on_click : E → Attr E

mutual
  pub data Node (E : Type 0) : Type 0 where
    text_node : Text → Node E
    element : String → List (Attr E) → Nodes E → Node E

  pub data Nodes (E : Type 0) : Type 0 where
    nil : Nodes E
    cons : Node E → Nodes E → Nodes E

abbrev is_span : String → Bool
is_span tag = tag == "span"

module _ {E : Type 0} where
  abbrev pub nodes : List (Node E) → Nodes E
  nodes [] = nil
  nodes (n ∷ ns) = cons n (nodes ns)

  -- `<tag attrs>children</tag>`
  abbrev pub el : String → List (Attr E) → List (Node E) → Node E
  el tag attrs children = element tag attrs (nodes children)

  abbrev pub lit : String → Node E
  lit s = text_node (codes s)

  -- An element with nothing but its class.
  abbrev pub div : String → List (Node E) → Node E
  div c children = el "div" (class_name c ∷ []) children

  abbrev pub span : String → List (Node E) → Node E
  span c children = el "span" (class_name c ∷ []) children

  abbrev pub para : String → List (Node E) → Node E
  para c children = el "p" (class_name c ∷ []) children

  -- An icon of the package `lucide-react`, by its name.
  abbrev pub icon : String → String → Node E
  icon name c = el name (class_name c ∷ []) []

  -- `{test && node}`
  abbrev pub when : Bool → Node E → List (Node E)
  when true n = n ∷ []
  when false n = []

  -- Of an attribute that is given twice the last one counts.
  abbrev pub is_disabled_from : Bool → List (Attr E) → Bool
  is_disabled_from b [] = b
  is_disabled_from b (class_name c ∷ attrs) = is_disabled_from b attrs
  is_disabled_from b (prop k v ∷ attrs) = is_disabled_from b attrs
  is_disabled_from b (disabled b' ∷ attrs) = is_disabled_from b' attrs
  is_disabled_from b (on_click e ∷ attrs) = is_disabled_from b attrs

  abbrev pub click_from : List E → List (Attr E) → List E
  click_from e [] = e
  click_from e (class_name c ∷ attrs) = click_from e attrs
  click_from e (prop k v ∷ attrs) = click_from e attrs
  click_from e (disabled b' ∷ attrs) = click_from e attrs
  click_from e (on_click e' ∷ attrs) = click_from (e' ∷ []) attrs

  -- The event of a click on the element itself; a disabled element gets no clicks.
  unfoldable pub own_event : List (Attr E) → List E
  own_event attrs = if is_disabled_from false attrs then [] else click_from [] attrs

  unfoldable mutual
    -- The events that the user can cause, in the order of the page.
    pub events : Node E → List E
    events (text_node t) = []
    events (element tag attrs children) = own_event attrs ++ events_all children

    pub events_all : Nodes E → List E
    events_all nil = []
    events_all (cons n ns) = events n ++ events_all ns

  -- The texts that stand directly in an element.
  abbrev pub texts : Nodes E → List Text
  texts nil = []
  texts (cons (text_node t) ns) = t ∷ texts ns
  texts (cons (element tag attrs children) ns) = texts ns

  unfoldable mutual
    -- The texts that stand directly in a `span`, which is what a badge renders.
    pub badges : Node E → List Text
    badges (text_node t) = []
    badges (element tag attrs children) = elim (is_span tag) [
      | true ↦ texts children
      | false ↦ badges_all children
    ]

    pub badges_all : Nodes E → List Text
    badges_all nil = []
    badges_all (cons n ns) = badges n ++ badges_all ns
