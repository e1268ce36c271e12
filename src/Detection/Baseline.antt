-- ===== src/Detection/Baseline.antt =====
-- internal/detection/baseline.go: the baseline of a metric, its update by a
-- value, and whether a value is an anomaly. Times are nanoseconds since Go's zero time; the two
-- counts are of Go's int, which wraps.
use ar_csent.Prelude.{
  ℕ, zero, suc, ◌-◌, Bool, true, false, ◌||◌, not, Option, none, some, List, [], ◌∷◌, ◌++◌, length,
  ltb, is_empty, if◌then◌else◌, ℤ, pos, negsuc,
}
use ar_csent.Text.{Text}
use ar_csent.Results.{drop}
use ar_csent.Scheduler.State.{increment}
use ar_csent.Detection.Floats.{Floats}

pub record Baseline (F : Type 0) : Type 0 where
  pub scanner_name : Text
  pub metric : Text
  pub count : ℤ
  pub mean : F
  pub m2 : F
  pub min : F
  pub max : F
  pub samples : List F
  pub updated_at : ℕ
  pub drift_count : ℤ
  pub last_value : F

-- `z < k`, and the value of `z` where that is not negative.
abbrev pub below : ℤ → ℕ → Bool
below (pos n) k = ltb n k
below (negsuc n) k = true

abbrev pub pos_part : ℤ → ℕ
pos_part (pos n) = n
pos_part (negsuc n) = 0

-- The newest samples, 200 at most.
abbrev pub kept_samples : {F : Type 0} → List F → List F
kept_samples samples =
    if ltb 200 (length samples) then drop (length samples - 200) samples else samples

module _ {F : Type 0} (fl : Floats F) where
  abbrev pub fresh : Text → Text → F → Baseline F
  fresh scanner_name metric value = record {
    scanner_name = scanner_name;
    metric = metric;
    count = pos 0;
    mean = fl.of_int 0;
    m2 = fl.of_int 0;
    min = value;
    max = value;
    samples = [];
    updated_at = 0;
    drift_count = pos 0;
    last_value = fl.of_int 0;
  }

  abbrev of_integer : ℤ → F
  of_integer (pos n) = fl.of_int n
  of_integer (negsuc n) = fl.sub (fl.of_int 0) (fl.of_int (suc n))

  -- `Update` between its read and its write.
  unfoldable pub observed : ℕ → F → Baseline F → Baseline F
  unfolding drop increment
  observed now value b =
      let delta = fl.sub value b.mean in
      let mean = fl.add b.mean (fl.div delta (of_integer (increment b.count))) in
      record {
        scanner_name = b.scanner_name;
        metric = b.metric;
        count = increment b.count;
        mean = mean;
        m2 = fl.add b.m2 (fl.mul delta (fl.sub value mean));
        min = if fl.lt value b.min then value else b.min;
        max = if fl.lt b.max value then value else b.max;
        samples = kept_samples (b.samples ++ value ∷ []);
        updated_at = now;
        drift_count = b.drift_count;
        last_value = value;
      }

  unfoldable pub z_score : Baseline F → F → F
  z_score b value =
      let variance = fl.div b.m2 (fl.of_int (pos_part b.count - 1)) in
      let stddev = fl.sqrt variance in
      if below b.count 2
      then fl.of_int 0
      else if fl.le variance (fl.of_int 0)
      then fl.of_int 0
      else if fl.eq stddev (fl.of_int 0)
      then fl.of_int 0
      else fl.div (fl.sub value b.mean) stddev

  -- `xs[i]`; `none` is a panic.
  abbrev at_nat : List F → ℕ → Option F
  at_nat [] n = none
  at_nat (x ∷ xs) zero = some x
  at_nat (x ∷ xs) (suc n) = at_nat xs n

  abbrev at : List F → ℤ → Option F
  at xs (pos n) = at_nat xs n
  at xs (negsuc n) = none

  abbrev between : F → Option F → Option F → Option F
  between weight none high = none
  between weight (some low) none = none
  between weight (some low) (some high) =
      some (fl.add (fl.mul low (fl.sub (fl.of_int 1) weight)) (fl.mul high weight))

  abbrev int_eq : ℤ → ℤ → Bool
  int_eq (pos m) (pos n) = not (ltb m n || ltb n m)
  int_eq (negsuc m) (negsuc n) = not (ltb m n || ltb n m)
  int_eq (pos m) (negsuc n) = false
  int_eq (negsuc m) (pos n) = false

  -- `percentile` at a rank.
  abbrev at_rank : List F → F → Option F
  at_rank sorted rank =
      if int_eq (fl.floor rank) (fl.ceil rank)
      then at sorted (fl.floor rank)
      else between (fl.sub rank (of_integer (fl.floor rank))) (at sorted (fl.floor rank))
          (at sorted (fl.ceil rank))

  -- `percentile` at 25 and at 75; its branches for 0 and for 100 are not reached.
  unfoldable pub percentile : List F → ℕ → Option F
  percentile [] p = some (fl.of_int 0)
  percentile (x ∷ xs) p =
      at_rank (x ∷ xs) (fl.mul (fl.div (fl.of_int p) (fl.of_int 100)) (fl.of_int (length xs)))

  -- `quartiles`, each by itself.
  abbrev quartile : List F → ℕ → Option F
  quartile samples p =
      if is_empty samples then some (fl.of_int 0) else percentile (fl.sort samples) p

  abbrev is_outlier : F → Option F → Option F → Option Bool
  is_outlier value none q3 = none
  is_outlier value (some q1) none = none
  is_outlier value (some q1) (some q3) =
      let spread = fl.mul fl.one_and_a_half (fl.sub q3 q1) in
      some (fl.lt value (fl.sub q1 spread) || fl.lt (fl.add q3 spread) value)

  -- `IsAnomaly` of a baseline, without its text; `none` is a panic.
  unfoldable pub is_anomaly : Baseline F → F → Option Bool
  unfolding z_score percentile
  is_anomaly b value =
      if below b.count 10
      then some false
      else if fl.le (fl.of_int 3) (fl.abs (z_score b value))
      then some true
      else is_outlier value (quartile b.samples 25) (quartile b.samples 75)
