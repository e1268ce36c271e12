-- ===== src/Detection/Drift.antt =====
-- internal/detection/baseline.go: the baselines in their store, and the detection of a drift. The store
-- (internal/storage) and the encoding (encoding/json) are the interface `BaselineStore`.
use ar_csent.Prelude.{
  ℕ, zero, suc, ◌≡◌, Bool, false, not, ◌||◌, Option, none, some, ◌++◌, is_empty, if◌then◌else◌, ℤ,
  pos, negsuc,
}
use ar_csent.Text.{Text, codes}
use ar_csent.Scheduler.State.{increment}
use ar_csent.Detection.Floats.{Floats}
use ar_csent.Detection.Baseline.{Baseline, below, fresh, observed, is_anomaly}

-- What a read gives: a value, `ErrNotFound`, or another error.
pub data Got (A : Type 0) : Type 0 where
  found : A → Got A
  missing : Got A
  broken : Got A

-- The bucket "baselines" of a store `S` that holds values `B`; `none` is an error.
pub record BaselineStore (S B F : Type 0) : Type 0 where
  pub read : Text → S → Got B
  pub write : Text → B → S → Option S
  pub encode : Baseline F → Option B
  pub decode : B → Option (Baseline F)

abbrev pub baseline_key : Text → Text → Text
baseline_key scanner_name metric = scanner_name ++ (codes "::" ++ metric)

-- What the packages document: a value that is written is read again, and what is encoded is decoded.
pub record IsFaithful {S B F : Type 0} (io : BaselineStore S B F) : Type 0 where
  pub read-write : (k : Text) (b : B) (s t : S) → io.write k b s ≡ some t → io.read k t ≡ found b
  pub decode-encode :
      (baseline : Baseline F) (b : B) → io.encode baseline ≡ some b → io.decode b ≡ some baseline

-- The store after a write; one that fails changes nothing.
abbrev pub written : {S : Type 0} → S → Option S → S
written s none = s
written s (some t) = t

abbrev pub at_least_one : ℤ → ℕ
at_least_one (pos zero) = 1
at_least_one (pos (suc n)) = suc n
at_least_one (negsuc n) = 1

-- The baseline with its run of anomalies counted on, or ended.
abbrev pub counted : {F : Type 0} → ℕ → F → Bool → Baseline F → Baseline F
counted now value anomaly b = record b {
  drift_count = if anomaly then increment b.drift_count else pos 0;
  last_value = value;
  updated_at = now;
}

-- The end of `DetectDrift`: no drift where the baseline could not be written.
abbrev pub drift_if_written : {S F : Type 0} → ℕ → Baseline F → S → Option S → Bool × S
drift_if_written consecutive b s none = (false, s)
drift_if_written consecutive b s (some t) = (not (below b.drift_count consecutive), t)

module _ {S B F : Type 0} (io : BaselineStore S B F) (fl : Floats F) where
  abbrev decoded : Option (Baseline F) → Got (Baseline F)
  decoded none = broken
  decoded (some b) = found b

  abbrev of_raw : Got B → Got (Baseline F)
  of_raw (found b) = decoded (io.decode b)
  of_raw missing = missing
  of_raw broken = broken

  -- `get`
  unfoldable pub get_baseline : Text → Text → S → Got (Baseline F)
  get_baseline scanner_name metric s = of_raw (io.read (baseline_key scanner_name metric) s)

  abbrev write_encoded : Text → Option B → S → Option S
  write_encoded k none s = none
  write_encoded k (some b) s = io.write k b s

  -- `put`; `none` is an error.
  unfoldable pub put_baseline : Baseline F → S → Option S
  put_baseline b s = write_encoded (baseline_key b.scanner_name b.metric) (io.encode b) s

  abbrev pub updated : Text → Text → ℕ → F → S → Got (Baseline F) → S
  updated scanner_name metric now value s (found b) =
      written s (put_baseline (observed fl now value b) s)
  updated scanner_name metric now value s missing =
      written s (put_baseline (observed fl now value (fresh fl scanner_name metric value)) s)
  updated scanner_name metric now value s broken = s

  -- `Update`: the store after it. Its baseline and its error are not looked at.
  unfoldable pub update : Text → Text → ℕ → F → S → S
  unfolding get_baseline put_baseline observed
  update scanner_name metric now value s =
      if is_empty scanner_name || is_empty metric
      then s
      else updated scanner_name metric now value s (get_baseline scanner_name metric s)

  abbrev pub detected : ℕ → F → ℕ → Baseline F → S → Option Bool → Option (Bool × S)
  detected now value consecutive b s none = none
  detected now value consecutive b s (some anomaly) =
      let c = counted now value anomaly b in
      some (drift_if_written consecutive c s (put_baseline c s))

  abbrev pub detected_in : ℕ → F → ℕ → S → Got (Baseline F) → Option (Bool × S)
  detected_in now value consecutive s (found b) =
      detected now value consecutive b s (is_anomaly fl b value)
  detected_in now value consecutive s missing = some (false, s)
  detected_in now value consecutive s broken = some (false, s)

  -- `DetectDrift`, with `IsAnomaly`, which reads the same baseline again: whether there is a drift,
  -- false with an error, and the store after it; `none` is a panic.
  unfoldable pub detect_drift : Text → Text → ℕ → F → ℤ → S → Option (Bool × S)
  unfolding get_baseline put_baseline is_anomaly
  detect_drift scanner_name metric now value consecutive s =
      detected_in now value (at_least_one consecutive) s (get_baseline scanner_name metric s)

  abbrev pub then_updated : Text → Text → ℕ → F → Option (Bool × S) → Option (Bool × S)
  then_updated scanner_name metric now value none = none
  then_updated scanner_name metric now value (some (drift, s)) =
      some (drift, update scanner_name metric now value s)

  -- What the daemon does with a metric's value: it looks for a drift, and then updates the baseline.
  unfoldable pub observe : Text → Text → ℕ → F → ℤ → S → Option (Bool × S)
  unfolding detect_drift update
  observe scanner_name metric now value consecutive s =
      then_updated scanner_name metric now value
        (detect_drift scanner_name metric now value consecutive s)
