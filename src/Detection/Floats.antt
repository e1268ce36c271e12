-- ===== src/Detection/Floats.antt =====
-- What internal/detection uses of Go's 64-bit floating-point numbers and of the packages math, sort
-- and fmt. `floor` and `ceil` are followed by the conversion to an integer.
use ar_csent.Prelude.{ℕ, Bool, List, ℤ}

pub record Floats (F : Type 0) : Type 0 where
  pub add : F → F → F
  pub sub : F → F → F
  pub mul : F → F → F
  pub div : F → F → F
  pub lt : F → F → Bool
  pub le : F → F → Bool
  pub eq : F → F → Bool
  pub of_int : ℕ → F
  pub one_and_a_half : F
  pub abs : F → F
  pub sqrt : F → F
  pub floor : F → ℤ
  pub ceil : F → ℤ
  pub sort : List F → List F
