-- ===== src/Detection/Onset.antt =====
-- internal/detection/baseline.go: how early a drift can be found, whatever the values are and whether
-- or not the store works.
use ar_csent.Prelude.{
  ℕ, suc, ◌+◌, ◌≤◌, ◌<◌, ◌≡◌, refl, Bool, true, false, Option, none, some, List, [], ◌∷◌, ℤ, arith,
}
use ar_csent.Text.{Text}
use ar_csent.Detection.Floats.{Floats}
use ar_csent.Detection.Baseline.{Baseline, is_anomaly}
use ar_csent.Detection.Soundness.{
  IsSound, Holds, Holds-le, put_baseline-Holds, update-Holds, counted-IsSound, late,
}
use ar_csent.Detection.Drift.{
  Got, found, missing, broken, BaselineStore, IsFaithful, get_baseline, put_baseline, at_least_one,
  counted, drift_if_written, detected, detected_in, detect_drift, then_updated, observe,
}

-- A drift comes with enough values, and the store stays sound.
abbrev Late : {S : Type 0} → ℕ → ℕ → (S → Type 0) → Option (Bool × S) → Type 0
Late k n P none = Unit
Late k n P (some (drift, s)) = (drift ≡ true → k + 10 ≤ suc n) × P s

at_least_one-positive : (k : ℤ) → 0 < at_least_one k
at_least_one-positive k = ground arith

abbrev and_rest : {S : Type 0} → Option (Bool × S) → (S → List Bool) → List Bool
and_rest none rest = []
and_rest (some (drift, s)) rest = drift ∷ rest s

-- The drifts found are behind the first so many values.
abbrev pub AllLate : ℕ → ℕ → List Bool → Type 0
AllLate k n [] = Unit
AllLate k n (drift ∷ drifts) = (drift ≡ true → k + 10 ≤ suc n) × AllLate k (suc n) drifts

module _ {S B F : Type 0} (io : BaselineStore S B F) (fl : Floats F)
    (scanner_name metric : Text) where
  -- The values of the metric with their times, one after the other, and for each whether a drift was
  -- found; a panic ends them.
  abbrev pub drifts : ℤ → List (ℕ × F) → S → List Bool
  drifts consecutive [] s = []
  drifts consecutive ((now, value) ∷ values) s =
      and_rest (observe io fl scanner_name metric now value consecutive s)
        (drifts consecutive values)

module _ {S B F : Type 0} (io : BaselineStore S B F) (fl : Floats F) (faithful : IsFaithful io)
    (scanner_name metric : Text) where
  drift_if_written-Late :
      (k n : ℕ) (b : Baseline F) (s : S)
      → 0 < k
      → IsSound fl scanner_name metric n (suc n) b
      → Holds io fl faithful scanner_name metric n n s
      → Late k n
          (Holds io fl faithful scanner_name metric n (suc n))
          (some (drift_if_written k b s (put_baseline io fl b s)))
  drift_if_written-Late k n b s positive sound h = after (put_baseline io fl b s) refl
    where
      after :
          (o : Option S)
          → put_baseline io fl b s ≡ o
          → Late k n
              (Holds io fl faithful scanner_name metric n (suc n))
              (some (drift_if_written k b s o))
      after none e = (
        λ d. absurd (cc),
        Holds-le io fl faithful scanner_name metric n n n (suc n) s (omega arith) (omega arith) h,
      )
      after (some t) e = (
        late fl k b positive sound,
        put_baseline-Holds io fl faithful scanner_name metric n (suc n) b s t sound e,
      )

  detect_drift-Late :
      (n now : ℕ) (value : F) (consecutive : ℤ) (s : S)
      → Holds io fl faithful scanner_name metric n n s
      → Late
          (at_least_one consecutive)
          n
          (Holds io fl faithful scanner_name metric n (suc n))
          (detect_drift io fl scanner_name metric now value consecutive s)
  unfolding detect_drift
  detect_drift-Late n now value consecutive s h =
      after (get_baseline io fl scanner_name metric s) refl
    where
      k : ℕ
      k = at_least_one consecutive

      kept : Late k n (Holds io fl faithful scanner_name metric n (suc n)) (some (false, s))
      kept = (
        λ d. absurd (cc),
        Holds-le io fl faithful scanner_name metric n n n (suc n) s (omega arith) (omega arith) h,
      )

      judged :
          (b : Baseline F) (o : Option Bool)
          → is_anomaly fl b value ≡ o
          → get_baseline io fl scanner_name metric s ≡ found b
          → Late k n
              (Holds io fl faithful scanner_name metric n (suc n))
              (detected io fl now value k b s o)
      judged b none e got = tt
      judged b (some anomaly) e got =
          drift_if_written-Late k n (counted now value anomaly b) s
            (at_least_one-positive consecutive) (counted-IsSound fl now value anomaly b (h b got) e)
            h

      after :
          (g : Got (Baseline F))
          → get_baseline io fl scanner_name metric s ≡ g
          → Late k n
              (Holds io fl faithful scanner_name metric n (suc n))
              (detected_in io fl now value k s g)
      after (found b) e = judged b (is_anomaly fl b value) refl e
      after missing e = kept
      after broken e = kept

  then_updated-Late :
      (k n now : ℕ) (value : F) (o : Option (Bool × S))
      → Late k n (Holds io fl faithful scanner_name metric n (suc n)) o
      → Late k n
          (Holds io fl faithful scanner_name metric (suc n) (suc n))
          (then_updated io fl scanner_name metric now value o)
  then_updated-Late k n now value none l = tt
  then_updated-Late k n now value (some (drift, s)) l =
      (l.0, update-Holds io fl faithful scanner_name metric n now value s l.1)

  drifts-AllLate_from :
      (n : ℕ) (consecutive : ℤ) (values : List (ℕ × F)) (s : S)
      → Holds io fl faithful scanner_name metric n n s
      → AllLate (at_least_one consecutive) n (drifts io fl scanner_name metric consecutive values s)
  unfolding observe
  drifts-AllLate_from n consecutive [] s h = tt
  drifts-AllLate_from n consecutive ((now, value) ∷ values) s h =
      after (observe io fl scanner_name metric now value consecutive s)
        (then_updated-Late (at_least_one consecutive) n now value _
          (detect_drift-Late n now value consecutive s h))
        (λ t. drifts-AllLate_from (suc n) consecutive values t)
    where
      after :
          (o : Option (Bool × S))
          → Late
              (at_least_one consecutive)
              n
              (Holds io fl faithful scanner_name metric (suc n) (suc n))
              o
          → ((t : S)
              → Holds io fl faithful scanner_name metric (suc n) (suc n) t
              → AllLate
                  (at_least_one consecutive)
                  (suc n)
                  (drifts io fl scanner_name metric consecutive values t))
          → AllLate
              (at_least_one consecutive)
              n
              (and_rest o (drifts io fl scanner_name metric consecutive values))
      after none l rest = tt
      after (some (drift, t)) l rest = (l.0, rest t l.1)

  -- If the store gives back what is written to it, though a write may fail, and it has no baseline
  -- of the metric, then among any values that follow, a drift is found at the earliest at the value
  -- that is numbered ten more than the configured number of consecutive anomalies, of which there is
  -- one at least, counted from one.
  pub drifts-AllLate :
      (consecutive : ℤ) (values : List (ℕ × F)) (s : S)
      → get_baseline io fl scanner_name metric s ≡ missing
      → AllLate (at_least_one consecutive) 0 (drifts io fl scanner_name metric consecutive values s)
  drifts-AllLate consecutive values s absent =
      drifts-AllLate_from 0 consecutive values s (λ b got. absurd (cc))
