-- ===== src/Detection/Pruning.antt =====
-- internal/detection/correlation.go: which events a pruning keeps.
use ar_csent.Prelude.{ℕ, ◌+◌, ◌≤◌, ◌≡◌, refl, List, [], ◌∷◌, ◌++◌, ltb, if◌then◌else◌, arith}
use ar_csent.Detection.Correlation.{Event, prune}

-- The events whose age is less than a window.
unfoldable pub recent : ℕ → ℕ → List Event → List Event
recent window now [] = []
recent window now (e ∷ events) =
    let rest = recent window now events in if ltb now (e.at + window) then e ∷ rest else rest

pub prune-eq-recent :
    (window now : ℕ) (events : List Event) → prune window now events ≡ recent window now events
unfolding prune recent
prune-eq-recent window now [] = refl
prune-eq-recent window now (e ∷ events) = ground (arith, prune-eq-recent window now events)

pub prune-append :
    (window now : ℕ) (xs ys : List Event)
    → prune window now (xs ++ ys) ≡ prune window now xs ++ prune window now ys
unfolding prune
prune-append window now [] ys = refl
prune-append window now (x ∷ xs) ys = ground (arith, prune-append window now xs ys)

pub prune-prune :
    (window before now : ℕ) (xs : List Event)
    → before ≤ now
    → prune window now (prune window before xs) ≡ prune window now xs
unfolding prune
prune-prune window before now [] h = refl
prune-prune window before now (x ∷ xs) h = ground (arith, prune-prune window before now xs h)
