-- ===== src/Detection/Spacing.antt =====
-- internal/detection/correlation.go: the times between the findings of a correlator.
use ar_csent.Prelude.{
  ℕ, zero, suc, ◌+◌, ◌≤◌, ◌<◌, ◌≡◌, refl, List, [], ◌∷◌, ◌++◌, if◌then◌else◌, ℤ, pos, negsuc, arith,
  is_empty, Bool, true, false,
}
use mathlib.Core.Path.{subst}
use ar_csent.Results.{ScanResult}
use ar_csent.Detection.Correlation.{
  Correlator, positive_or, new_correlator, elapsed, Evidence, trigger, add,
}

-- Times of which each is the cooldown or more behind the one before, the first one behind a time.
abbrev pub Spaced : ℕ → ℕ → List ℕ → Type 0
Spaced cooldown last [] = Unit
Spaced cooldown last (t ∷ times) = (last + cooldown ≤ t) × Spaced cooldown t times

Spaced-at :
    (times : List ℕ) {cooldown cooldown' last last' : ℕ}
    → cooldown' ≡ cooldown
    → last' ≡ last
    → Spaced cooldown' last' times
    → Spaced cooldown last times
Spaced-at times {cooldown} {cooldown'} {last} {last'} kept same h =
    subst (λ k. Spaced k last times) kept (subst (λ t. Spaced cooldown' t times) same h)

Spaced-next :
    (quiet : Bool) (last now : ℕ) (times : List ℕ) {cooldown cooldown' last' : ℕ}
    → cooldown' ≡ cooldown
    → last' ≡ (if quiet then last else now)
    → (quiet ≡ false → last + cooldown ≤ now)
    → Spaced cooldown' last' times
    → Spaced cooldown last ((if quiet then [] else now ∷ []) ++ times)
Spaced-next true last now times kept same apart rest = Spaced-at times kept same rest
Spaced-next false last now times kept same apart rest = (apart refl, Spaced-at times kept same rest)

positive_or-positive : (default : ℕ) (n : ℤ) → 0 < default → 0 < positive_or default n
positive_or-positive default (pos zero) h = h
positive_or-positive default (pos (suc n)) h = omega arith
positive_or-positive default (negsuc n) h = h

module _ {J : Type 0} (ev : Evidence J) where
  -- The times of the calls that give a finding.
  abbrev pub raised_times : List (ℕ × ScanResult ℕ J) → Correlator → List ℕ
  raised_times [] c = []
  raised_times ((now, res) ∷ calls) c =
      (if is_empty (add ev now res c).0 then [] else now ∷ [])
      ++ raised_times calls (add ev now res c).1

  add-last_triggered :
      (now : ℕ) (res : ScanResult ℕ J) (c : Correlator)
      → 0 < c.cooldown
      → ((add ev now res c).1.cooldown ≡ c.cooldown)
        × ((add ev now res c).1.last_triggered
            ≡ (if is_empty (add ev now res c).0 then c.last_triggered else now))
        × (is_empty (add ev now res c).0 ≡ false → c.last_triggered + c.cooldown ≤ now)
  unfolding add trigger elapsed
  add-last_triggered now res c positive = ground arith

  raised_times-Spaced :
      (calls : List (ℕ × ScanResult ℕ J)) (c : Correlator)
      → 0 < c.cooldown
      → Spaced c.cooldown c.last_triggered (raised_times calls c)
  raised_times-Spaced [] c positive = tt
  raised_times-Spaced ((now, res) ∷ calls) c positive =
      let s = add-last_triggered now res c positive in
      let rest = raised_times-Spaced calls (add ev now res c).1 (rw s.0 positive) in
      Spaced-next (is_empty (add ev now res c).0) c.last_triggered now
        (raised_times calls (add ev now res c).1) s.0 s.1 s.2 rest

  -- The findings of a new correlator are at least the cooldown apart, over any sequence of calls; a
  -- cooldown that is not positive stands for the window.
  pub raised-Spaced :
      (window min_scanners cooldown : ℤ) (calls : List (ℕ × ScanResult ℕ J))
      → Spaced
          (positive_or (positive_or 300000000000 window) cooldown)
          0
          (raised_times calls (new_correlator window min_scanners cooldown))
  unfolding new_correlator
  raised-Spaced window min_scanners cooldown calls =
      raised_times-Spaced calls (new_correlator window min_scanners cooldown)
        (positive_or-positive _ cooldown (positive_or-positive _ window (omega arith)))
