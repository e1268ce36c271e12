-- ===== src/Detection/Distinct.antt =====
-- internal/detection/correlation.go: the number of different scanners among events.
use ar_csent.Prelude.{
  ℕ, ◌+◌, ◌≡◌, refl, ◌∙◌, ap, List, [], ◌∷◌, length, if◌then◌else◌, arith, Bool, true, false, ◌||◌,
  Option, none, some,
}
use ar_csent.Text.{Text, text_eq}
use ar_csent.Dict.{Dict, get, set}
use ar_csent.Dict.Laws.{get-set}
use ar_csent.Detection.Correlation.{Event, unique}

abbrev is_in : Text → List Event → Bool
is_in name [] = false
is_in name (e ∷ events) = text_eq e.scanner name || is_in name events

-- How many different scanners the events name.
abbrev pub distinct_scanners : List Event → ℕ
distinct_scanners [] = 0
distinct_scanners (e ∷ events) =
    (if is_in e.scanner events then 0 else 1) + distinct_scanners events

abbrev is_some {ℓ} : {A : Type ℓ} → Option A → Bool
is_some none = false
is_some (some a) = true

length-set {ℓ} :
    {V : Type ℓ} (k : Text) (v : V) (d : Dict V)
    → length (set k v d) ≡ (if is_some (get k d) then 0 else 1) + length d
unfolding get set
length-set k v [] = omega arith
length-set k v ((j, w) ∷ d) = ground (arith, length-set k v d)

is_some-unique :
    (name : Text) (events : List Event) → is_some (get name (unique events)) ≡ is_in name events
unfolding unique
is_some-unique name [] = unfold get in refl
is_some-unique name (e ∷ events) =
    ground (arith, get-set e.scanner name tt (unique events), is_some-unique name events)

-- The map `unique` has as many keys as there are different scanners.
pub length-unique : (events : List Event) → length (unique events) ≡ distinct_scanners events
unfolding unique
length-unique [] = refl
length-unique (e ∷ events) =
    length-set e.scanner tt (unique events)
    ∙ rw (is_some-unique e.scanner events)
        (ap (λ n. (if is_in e.scanner events then 0 else 1) + n) (length-unique events))
