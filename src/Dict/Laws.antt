-- ===== src/Dict/Laws.antt =====
-- Reading an object after a write or a spread.
use ar_csent.Prelude.{◌≡◌, refl, Option, none, some, [], ◌∷◌, if◌then◌else◌, arith}
use ar_csent.Text.{Text, text_eq}
use ar_csent.Text.Equality.{text_eq_iff, text_eq_refl}
use ar_csent.Dict.{Dict, get, set, spread}

-- `over ?? base`
abbrev pub or_else {ℓ} : {V : Type ℓ} → Option V → Option V → Option V
or_else none base = base
or_else (some v) base = some v

module _ {ℓ} {V : Type ℓ} where
  pub get-set :
      (k j : Text) (v : V) (d : Dict V)
      → get j (set k v d) ≡ (if text_eq k j then some v else get j d)
  unfolding get set
  get-set k j v [] = refl
  get-set k j v ((i, w) ∷ d) =
      ground (arith, text_eq_iff k j, text_eq_iff i k, text_eq_iff i j, get-set k j v d)

  pub get-set_self : (k : Text) (v : V) (d : Dict V) → get k (set k v d) ≡ some v
  get-set_self k v d = simp (get-set, text_eq_refl)

  -- No key twice: what every object that the client builds satisfies.
  abbrev pub NoDuplicates : Dict V → Type ℓ
  NoDuplicates [] = Unit
  NoDuplicates ((k, v) ∷ d) = (get k d ≡ none) × NoDuplicates d

  -- A spread takes the key from the later object that has it.
  pub get-spread :
      (j : Text) (base over : Dict V)
      → NoDuplicates over
      → get j (spread base over) ≡ or_else (get j over) (get j base)
  unfolding spread get
  get-spread j base [] h = refl
  get-spread j base ((k, v) ∷ over) h =
      ground (arith, get-spread j (set k v base) over h.1, get-set k j v base, text_eq_iff k j)
