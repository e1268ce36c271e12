-- ===== src/Dashboard/Format/Rounding.antt =====
-- web/src/pages/Dashboard.tsx: the rounding of a size.
use ar_csent.Prelude.{ℕ, ◌+◌, ◌*◌, ◌≤◌, ◌<◌, arith}
use ar_csent.Dashboard.Format.{tenths_of_kb}

-- The number of tenths that is shown for a size is the nearest one, and of two nearest ones the
-- larger: with n tenths the size lies in [n - 1/2, n + 1/2) tenths of 1024 bytes.
pub tenths_of_kb_nearest :
    (bytes : ℕ)
    → (2048 * tenths_of_kb bytes ≤ 20 * bytes + 1024)
      × (20 * bytes + 1024 < 2048 * tenths_of_kb bytes + 2048)
unfolding tenths_of_kb
tenths_of_kb_nearest bytes = (omega arith, omega arith)
