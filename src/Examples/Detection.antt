-- ===== src/Examples/Detection.antt =====
-- A correlator with a window of 10, of two scanners, and with a cooldown of 20.
use ar_csent.Prelude.{
  ℕ, ◌+◌, ◌-◌, ◌*◌, ◌/◌, ◌≤◌, ◌≡◌, ◌≢◌, ◌↔◌, refl, sym, ap, List, [], ◌∷◌, ◌++◌, pos, arith, Option,
  none, some, ltb, leb, ◌==◌, true, false,
}
use ar_csent.Text.{codes, text_eq}
use ar_csent.Dict.{Dict, get, set}
use ar_csent.Dict.Laws.{get-set_self}
use ar_csent.Results.{ScanResult}
use ar_csent.Detection.Correlation.{Correlator, Evidence, new_correlator, elapsed, add}
use ar_csent.Detection.Distinct.{distinct_scanners}
use ar_csent.Detection.Pruning.{recent}
use ar_csent.Detection.Windows.{all_events, add_all, add-raises_iff}
use ar_csent.Detection.Spacing.{Spaced, raised_times, raised-Spaced}
use ar_csent.Detection.Floats.{Floats}
use ar_csent.Detection.Baseline.{Baseline}
use ar_csent.Detection.Drift.{Got, found, missing, BaselineStore, IsFaithful, get_baseline, observe}
use ar_csent.Detection.Onset.{AllLate, drifts, drifts-AllLate}
use ar_csent.Examples.Results.{finding, result_of}

abbrev evidence : Evidence (Unit {0})
evidence = record { of_int = λ n. tt; show_duration = λ d. codes "10ns" }

abbrev disk : ScanResult ℕ Unit
disk = result_of (codes "disk") 1 (finding ∷ [])

abbrev ports : ScanResult ℕ Unit
ports = result_of (codes "ports") 1 (finding ∷ [])

abbrev quiet : ScanResult ℕ Unit
quiet = result_of (codes "cpu") 1 []

abbrev calls : List (ℕ × ScanResult ℕ Unit)
calls = (30, disk) ∷ (34, quiet) ∷ (45, ports) ∷ (52, disk) ∷ []

abbrev correlator : Correlator
correlator = add_all evidence calls (new_correlator (pos 10) (pos 2) (pos 20))

add-raises_iff_example : ((add evidence 74 ports correlator).0 ≢ []) ↔ (
    (ports.findings ≢ [])
    × (2
        ≤ distinct_scanners
            (recent 10 74 (all_events calls ++ record { at = 74; scanner = codes "ports" } ∷ [])))
    × (20 ≤ elapsed 74 correlator.last_triggered))
add-raises_iff_example =
    add-raises_iff evidence (pos 10) (pos 2) (pos 20) calls 74 ports (omega arith)

raised-Spaced_example : Spaced 20 0 (
    raised_times evidence
      (calls ++ (73, disk) ∷ (74, ports) ∷ [])
      (new_correlator (pos 10) (pos 2) (pos 20)))
raised-Spaced_example =
    raised-Spaced evidence (pos 10) (pos 2) (pos 20) (calls ++ (73, disk) ∷ (74, ports) ∷ [])

-- The two events at 30 and 45 are not within the window, those at 45 and 52 are.
raised_twice :
    raised_times evidence
      (calls ++ (73, disk) ∷ (74, ports) ∷ [])
      (new_correlator (pos 10) (pos 2) (pos 20))
    ≡ 52 ∷ 74 ∷ []
unfolding add new_correlator text_eq
raised_twice = refl

-- A stand-in for the floating-point numbers, and a store that is a dictionary of baselines.
abbrev pub whole : Floats ℕ
whole = record {
  add = λ a b. a + b;
  sub = λ a b. a - b;
  mul = λ a b. a * b;
  div = λ a b. a / b;
  lt = ltb;
  le = leb;
  eq = λ a b. a == b;
  of_int = λ n. n;
  one_and_a_half = 1;
  abs = λ a. a;
  sqrt = λ a. a;
  floor = λ a. pos a;
  ceil = λ a. pos a;
  sort = λ xs. xs;
}

abbrev pub or_missing : Option (Baseline ℕ) → Got (Baseline ℕ)
or_missing none = missing
or_missing (some b) = found b

abbrev pub baselines : BaselineStore (Dict (Baseline ℕ)) (Baseline ℕ) ℕ
baselines = record {
  read = λ k s. or_missing (get k s);
  write = λ k b s. some (set k b s);
  encode = λ b. some b;
  decode = λ b. some b;
}

some_inj {ℓ} : {A : Type ℓ} {a b : A} → some a ≡ some b → a ≡ b
some_inj h = cc

baselines-IsFaithful : IsFaithful baselines
baselines-IsFaithful = record {
  read-write = λ k b s t h. rw (← some_inj h) (ap or_missing (get-set_self k b s));
  decode-encode = λ baseline b h. ap (λ x. some x) (sym (some_inj h));
}

-- Ten equal values and a larger one.
abbrev loads : List (ℕ × ℕ)
loads =
    (1, 5)
    ∷ (2, 5)
    ∷ (3, 5)
    ∷ (4, 5)
    ∷ (5, 5)
    ∷ (6, 5)
    ∷ (7, 5)
    ∷ (8, 5)
    ∷ (9, 5)
    ∷ (10, 5)
    ∷ (11, 90)
    ∷ []

drifts-AllLate_example :
    AllLate 1 0 (drifts baselines whole (codes "load") (codes "load1") (pos 1) loads [])
drifts-AllLate_example =
    drifts-AllLate baselines whole baselines-IsFaithful (codes "load") (codes "load1") (pos 1) loads
      [] (unfold get_baseline get in refl)

last_drifts :
    drifts baselines whole (codes "load") (codes "load1") (pos 1) loads []
    ≡ false ∷ false ∷ false ∷ false ∷ false ∷ false ∷ false ∷ false ∷ false ∷ false ∷ true ∷ []
unfolding observe get set text_eq
last_drifts = refl
