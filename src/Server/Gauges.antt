-- ===== src/Server/Gauges.antt =====
-- internal/api/server.go, `writeGauge` of `buildMetrics`: one line of the metrics page.
use ar_csent.Prelude.{List, [], ◌∷◌, ◌++◌, ℤ}
use ar_csent.Text.{Text, codes}
use ar_csent.Number.Print.{show_int}

-- The builder's four writes.
unfoldable pub write_gauge : Text → Text → ℤ → Text
unfolding show_int
write_gauge builder name value = (((builder ++ name) ++ codes " ") ++ show_int value) ++ codes "\n"

-- The page that a sequence of calls writes.
unfoldable pub write_gauges : Text → List (Text × ℤ) → Text
unfolding write_gauge
write_gauges builder [] = builder
write_gauges builder ((name, value) ∷ gauges) = write_gauges (write_gauge builder name value) gauges
