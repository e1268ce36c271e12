-- ===== src/Components/Laws.antt =====
-- What a button does while it loads.
use ar_csent.Prelude.{
  ◌≡◌, refl, ◌∙◌, ap, Bool, true, false, ◌||◌, List, [], ◌∷◌, ◌++◌, String, if◌then◌else◌,
}
use ar_csent.Jsx.{
  Attr, class_name, prop, disabled, on_click, Node, el, when, is_disabled_from, click_from,
  own_event, events, events_all, nodes,
}
use ar_csent.Components.{ClassValue, ButtonProps, button}

or-false : (b : Bool) → (b || false) ≡ b
or-false true = refl
or-false false = refl

module _ {E : Type 0} where
  -- The caller gives no `disabled` of its own.
  abbrev pub NoDisabled : List (Attr E) → Type 0
  NoDisabled [] = Unit
  NoDisabled (class_name c ∷ attrs) = NoDisabled attrs
  NoDisabled (prop k v ∷ attrs) = NoDisabled attrs
  NoDisabled (disabled b ∷ attrs) = ⊥
  NoDisabled (on_click e ∷ attrs) = NoDisabled attrs

  is_disabled_from_of_NoDisabled :
      (b : Bool) (attrs : List (Attr E)) → NoDisabled attrs → is_disabled_from b attrs ≡ b
  is_disabled_from_of_NoDisabled b [] h = refl
  is_disabled_from_of_NoDisabled b (class_name c ∷ attrs) h =
      is_disabled_from_of_NoDisabled b attrs h
  is_disabled_from_of_NoDisabled b (prop k v ∷ attrs) h = is_disabled_from_of_NoDisabled b attrs h
  is_disabled_from_of_NoDisabled b (disabled b' ∷ attrs) h = absurd h
  is_disabled_from_of_NoDisabled b (on_click e ∷ attrs) h = is_disabled_from_of_NoDisabled b attrs h

  events_all-spinner :
      (loading : Bool) (children : List (Node E))
      → events_all (
          nodes (
            when loading (el "Loader2" (class_name "mr-2 h-4 w-4 animate-spin" ∷ []) [])
            ++ children))
        ≡ events_all (nodes children)
  unfolding events own_event
  events_all-spinner true children = refl
  events_all-spinner false children = refl

  -- The events of a button: those of its children, and its own click unless it is disabled; the
  -- spinner of a loading button adds none.
  pub events-button :
      (clsx : List ClassValue → String) (b : ButtonProps E) (children : List (Node E))
      → events (button clsx b children)
        ≡ (if is_disabled_from (b.is_loading || is_disabled_from false b.props) b.props
            then []
            else click_from [] b.props)
          ++ events_all (nodes children)
  unfolding button events own_event
  events-button clsx b children =
      ap
        (λ r.
          (if is_disabled_from (b.is_loading || is_disabled_from false b.props) b.props
            then []
            else click_from [] b.props)
          ++ r)
        (events_all-spinner b.is_loading children)

  -- While it loads, a button without a `disabled` of its caller takes no click.
  pub events-button_loading :
      (clsx : List ClassValue → String) (b : ButtonProps E) (children : List (Node E))
      → NoDisabled b.props
      → events (button clsx b children)
        ≡ (if b.is_loading then [] else click_from [] b.props) ++ events_all (nodes children)
  events-button_loading clsx b children h =
      events-button clsx b children
      ∙ ap (λ d. (if d then [] else click_from [] b.props) ++ events_all (nodes children))
          (is_disabled_from_of_NoDisabled _ b.props h
            ∙ ap (b.is_loading ||◌) (is_disabled_from_of_NoDisabled false b.props h)
            ∙ or-false b.is_loading)

  -- A caller's `disabled={false}` takes the place of the button's own: even while it loads the
  -- button takes every click.
  pub events-button_overridden :
      (clsx : List ClassValue → String) (b : ButtonProps E) (children : List (Node E))
      (rest : List (Attr E))
      → b.is_loading ≡ true
      → b.props ≡ disabled false ∷ rest
      → NoDisabled rest
      → events (button clsx b children) ≡ click_from [] rest ++ events_all (nodes children)
  events-button_overridden clsx b children rest loading given h =
      events-button clsx b children
      ∙ rw given (
          ap (λ d. (if d then [] else click_from [] rest) ++ events_all (nodes children))
            (is_disabled_from_of_NoDisabled false rest h))
