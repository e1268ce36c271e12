-- ===== src/Dashboard/Format.antt =====
-- web/src/pages/Dashboard.tsx: how sizes and times are shown. The parsing of dates and the locale's
-- form of a date and of a number belong to the platform, and are the record `Platform`.
pub mod Rounding
use ar_csent.Prelude.{
  ℕ, ◌+◌, ◌*◌, ◌/◌, ◌%◌, Option, none, some, [], ◌∷◌, ◌++◌, is_empty, if◌then◌else◌, ℤ, pos, negsuc,
  zero, suc,
}
use ar_csent.Text.{Text, codes}
use ar_csent.Number.{Number}
use ar_csent.Number.Print.{show_nat}

-- `parse_time` is `new Date(text).getTime()`, `none` for NaN; `to_locale_string` is
-- `toLocaleString()` of that date; `show_number` is the text of a number in the page.
pub record Platform : Type 0 where
  pub parse_time : Text → Option ℤ
  pub to_locale_string : ℤ → Text
  pub show_number : Number → Text

abbrev pub dash : Text
dash = codes "—"

abbrev format_parsed : Platform → Option ℤ → Text
format_parsed p none = dash
format_parsed p (some (pos zero)) = dash
format_parsed p (some (pos (suc t))) = p.to_locale_string (pos (suc t))
format_parsed p (some (negsuc t)) = p.to_locale_string (negsuc t)

-- `formatTime`
unfoldable pub format_time : Platform → Option Text → Text
format_time p none = dash
format_time p (some value) = if is_empty value then dash else format_parsed p (p.parse_time value)

-- `(bytes / 1024).toFixed(1)`: the nearest number of tenths, the larger of two. The division is
-- exact for the sizes that a double holds.
unfoldable pub tenths_of_kb : ℕ → ℕ
tenths_of_kb bytes = (bytes * 20 + 1024) / 2048

unfoldable pub to_fixed_kb : ℕ → Text
unfolding tenths_of_kb show_nat
to_fixed_kb bytes =
    show_nat (tenths_of_kb bytes / 10) ++ b'.' ∷ (b'0' + tenths_of_kb bytes % 10) ∷ []

-- `src.bytes ? … : "0 KB"`
unfoldable pub show_size : Option ℕ → Text
unfolding to_fixed_kb
show_size none = codes "0 KB"
show_size (some zero) = codes "0 KB"
show_size (some (suc n)) = to_fixed_kb (suc n) ++ codes " KB"
