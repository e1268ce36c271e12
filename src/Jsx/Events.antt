-- ===== src/Jsx/Events.antt =====
-- Events and badges of a list of siblings.
use ar_csent.Prelude.{◌≡◌, refl, ◌∙◌, sym, ap, List, [], ◌∷◌, ◌++◌, map, flat_map, append_assoc}
use ar_csent.Jsx.{Node, nodes, events, events_all, badges_all, badges}
use ar_csent.Text.{Text}

module _ {E : Type 0} where
  pub events_all-append :
      (xs ys : List (Node E))
      → events_all (nodes (xs ++ ys)) ≡ events_all (nodes xs) ++ events_all (nodes ys)
  unfolding events
  events_all-append [] ys = refl
  events_all-append (x ∷ xs) ys =
      ap (λ r. events x ++ r) (events_all-append xs ys) ∙ sym (append_assoc (events x) _ _)

  pub badges_all-append :
      (xs ys : List (Node E))
      → badges_all (nodes (xs ++ ys)) ≡ badges_all (nodes xs) ++ badges_all (nodes ys)
  unfolding badges
  badges_all-append [] ys = refl
  badges_all-append (x ∷ xs) ys =
      ap (λ r. badges x ++ r) (badges_all-append xs ys) ∙ sym (append_assoc (badges x) _ _)

  -- One event for each item of a list that is rendered item by item.
  pub events_all-map {ℓ} :
      {A : Type ℓ} (f : A → Node E) (g : A → List E)
      → ((a : A) → events (f a) ≡ g a)
      → (xs : List A) → events_all (nodes (map f xs)) ≡ flat_map g xs
  unfolding events
  events_all-map f g h [] = refl
  events_all-map f g h (x ∷ xs) = rw (h x, events_all-map f g h xs)

  -- So for badges, one for each item.
  pub badges_all-map {ℓ} :
      {A : Type ℓ} (f : A → Node E) (g : A → Text)
      → ((a : A) → badges (f a) ≡ g a ∷ [])
      → (xs : List A) → badges_all (nodes (map f xs)) ≡ map g xs
  unfolding badges
  badges_all-map f g h [] = refl
  badges_all-map f g h (x ∷ xs) = rw (h x, badges_all-map f g h xs)
