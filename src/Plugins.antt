-- ===== src/Plugins.antt =====
-- internal/plugins/system: the plugins that read the operating system, each from what it reads on. The
-- value of a configuration's key is a `Setting`.
pub mod AuthLog
pub mod LoadAverage
use ar_csent.Prelude.{ℕ, List, [], ◌∷◌, is_empty, if◌then◌else◌}
use ar_csent.Text.{Text}

-- A decoded JSON value, as far as the plugins tell them apart: a number is what `int` makes of it, and
-- whether it is above 0.
mutual
  pub data Setting : Type 0 where
    text : Text → Setting
    positive : ℕ → Setting
    list : Settings → Setting
    other : Setting

  pub data Settings : Type 0 where
    none_left : Settings
    one_more : Setting → Settings → Settings
