-- ===== src/Dict.antt =====
-- Plain JavaScript objects used as maps from texts (`Record<string, V>`), in order of insertion.
pub mod Laws
use ar_csent.Prelude.{ℕ, Option, none, some, List, [], ◌∷◌, if◌then◌else◌}
use ar_csent.Text.{Text, text_eq}

abbrev pub Dict {ℓ} : Type ℓ → Type ℓ
Dict V = List (Text × V)

module _ {ℓ} {V : Type ℓ} where
  -- `record[key]`; `none` is `undefined`.
  unfoldable pub get : Text → Dict V → Option V
  get k [] = none
  get k ((j, v) ∷ d) = if text_eq j k then some v else get k d

  -- `record[key] = value`, and `{ ...record, [key]: value }`.
  unfoldable pub set : Text → V → Dict V → Dict V
  set k v [] = (k, v) ∷ []
  set k v ((j, w) ∷ d) = if text_eq j k then (j, v) ∷ d else (j, w) ∷ set k v d

  -- `{ ...base, ...over }`
  unfoldable pub spread : Dict V → Dict V → Dict V
  unfolding set
  spread base [] = base
  spread base ((k, v) ∷ over) = spread (set k v base) over
