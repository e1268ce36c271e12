-- ===== src/Manager.antt =====
-- internal/scanner/manager.go: the registry of the plugins. A plugin is its name with what else it is, a
-- `P`; each method holds the lock, so it is one step. Go lists a map in any order; this is the order
-- of registration.
use ar_csent.Prelude.{
  ◌≡◌, ◌≢◌, ◌↔◌, refl, inl, inr, Bool, true, false, Option, none, some, List, [], ◌∷◌, ◌++◌,
  is_empty, if◌then◌else◌, Option-cases, Bool-cases, arith, ap, ◌∙◌,
}
use ar_csent.Text.{Text, codes, text_eq}
use ar_csent.Text.Equality.{text_eq_iff}
use ar_csent.Dict.{Dict, get, set}
use ar_csent.Dict.Laws.{get-set}
use ar_csent.Api.{Result, ok, err}
use ar_csent.Server.Trigger.{Encoding, contains, not_found}

pub record Plugin (P : Type 0) : Type 0 where
  pub name : Text
  pub implementation : P

pub record Manager (P : Type 0) : Type 0 where
  pub plugins : Dict (Plugin P)

abbrev pub keys : {V : Type 0} → Dict V → List Text
keys [] = []
keys ((k, v) ∷ d) = k ∷ keys d

module _ {P : Type 0} where
  -- `NewManager`
  abbrev pub new_manager : Manager P
  new_manager = record { plugins = [] }

  module _ (enc : Encoding) where
    abbrev added : Plugin P → Manager P → Option (Plugin P) → Option Text × Manager P
    added p m none = (none, record { plugins = set p.name p m.plugins })
    added p m (some old) =
        (some (codes "plugin " ++ enc.quote p.name ++ codes " already registered"), m)

    -- `Register`: the error, and the registry after it.
    unfoldable pub register : Option (Plugin P) → Manager P → Option Text × Manager P
    unfolding get set
    register none m = (some (codes "plugin is nil"), m)
    register (some p) m =
        if is_empty p.name
        then (some (codes "plugin name is required"), m)
        else added p m (get p.name m.plugins)

    abbrev pub found : Text → Option (Plugin P) → Result (Plugin P)
    found name none = err (not_found enc name)
    found name (some p) = ok p

    -- `Get`
    unfoldable pub lookup : Text → Manager P → Result (Plugin P)
    unfolding get
    lookup name m = found name (get name m.plugins)

    -- The registry after registrations, failed ones included.
    abbrev pub register_all : List (Option (Plugin P)) → Manager P → Manager P
    register_all [] m = m
    register_all (p ∷ ps) m = register_all ps (register p m).1

  -- `List`
  unfoldable pub list : Manager P → List Text
  list m = keys m.plugins

  -- The first plugin with a name that is not empty, among those that are not nil.
  abbrev pub first_named : Text → List (Option (Plugin P)) → Option (Plugin P)
  first_named name [] = none
  first_named name (none ∷ ps) = first_named name ps
  first_named name (some p ∷ ps) = if text_eq p.name name then some p else first_named name ps

  abbrev or_first : Option (Plugin P) → Option (Plugin P) → Option (Plugin P)
  or_first none later = later
  or_first (some p) later = some p

  get-register :
      (enc : Encoding) (name : Text) (p : Plugin P) (m : Manager P)
      → is_empty name ≡ false
      → get name (register enc (some p) m).1.plugins
        ≡ or_first (get name m.plugins) (if text_eq p.name name then some p else none)
  unfolding register
  get-register enc name p m h = elim (Option-cases (get p.name m.plugins)) [
    | inl e ↦
        rw (e, added)
          (ground (
            arith,
            text_eq_iff p.name name,
            get-set p.name name p m.plugins,
            Bool-cases (is_empty p.name),
            Option-cases (get name m.plugins),
            e,
          ))
    | inr (old, e) ↦
        rw (e, added)
          (ground (
            arith,
            text_eq_iff p.name name,
            Bool-cases (is_empty p.name),
            Option-cases (get name m.plugins),
            e,
          ))
  ]

  or_first_assoc :
      (a : Option (Plugin P)) (b : Bool) (p : Plugin P) (c : Option (Plugin P))
      → or_first (or_first a (if b then some p else none)) c ≡ or_first a (if b then some p else c)
  or_first_assoc (some q) b p c = refl
  or_first_assoc none true p c = refl
  or_first_assoc none false p c = refl

  register_nil : (enc : Encoding) (m : Manager P) → (register enc none m).1 ≡ m
  unfolding register
  register_nil enc m = refl

  get-register_all :
      (enc : Encoding) (name : Text) (ps : List (Option (Plugin P))) (m : Manager P)
      → is_empty name ≡ false
      → get name (register_all enc ps m).plugins
        ≡ or_first (get name m.plugins) (first_named name ps)
  get-register_all enc name [] m h = ground (arith, Option-cases (get name m.plugins))
  get-register_all enc name (none ∷ ps) m h =
      get-register_all enc name ps (register enc none m).1 h
      ∙ ap (λ (k : Manager P). or_first (get name k.plugins) (first_named name ps))
          (register_nil enc m)
  get-register_all enc name (some p ∷ ps) m h =
      get-register_all enc name ps (register enc (some p) m).1 h
      ∙ (ap (λ o. or_first o (first_named name ps)) (get-register enc name p m h)
          ∙ or_first_assoc (get name m.plugins) (text_eq p.name name) p (first_named name ps))

contains-keys :
    {V : Type 0} (name : Text) (d : Dict V) → (contains name (keys d) ≡ true) ↔ (get name d ≢ none)
unfolding get
contains-keys name [] = (λ h. cc h, λ h. absurd (h refl))
contains-keys name ((k, v) ∷ d) = ground (arith, text_eq_iff k name, contains-keys name d)

-- After any registrations from the empty registry, failed ones included, a name that is not empty is
-- found as the first plugin that was registered under it, and otherwise reported as not found; it is
-- in the list exactly when there is such a plugin.
pub lookup-register_all :
    {P : Type 0} (enc : Encoding) (name : Text) (ps : List (Option (Plugin P)))
    → is_empty name ≡ false
    → (lookup enc name (register_all enc ps new_manager) ≡ found enc name (first_named name ps))
      × ((contains name (list (register_all enc ps new_manager)) ≡ true)
          ↔ (first_named name ps ≢ none))
unfolding lookup list
lookup-register_all {P} enc name ps h =
    let e : get name (register_all enc ps new_manager).plugins ≡ first_named name ps =
      unfold get in get-register_all enc name ps new_manager h in
    (rw e refl, rw (← e) (contains-keys name (register_all enc ps new_manager).plugins))
