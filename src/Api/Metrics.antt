-- ===== src/Api/Metrics.antt =====
-- web/src/lib/api.ts, `getMetrics`: the lines "name value" of a metrics page as an object.
pub mod Lines
use ar_csent.Prelude.{ℕ, ◌||◌, none, List, [], ◌∷◌, if◌then◌else◌, is_empty}
use mathlib.Core.List.{foldl}
use ar_csent.Text.{Text, codes, text_eq, trim, split_char, split_spaces, starts_with}
use ar_csent.Number.{Number, to_number, is_finite}
use ar_csent.Dict.{Dict, set}
use ar_csent.Api.{Result, ok, ◌>>=◌, Storage, Request, Outcome, fetch_text}

abbrev pub proto : Text
proto = codes "__proto__"

-- `parsed[name] = value` for a number: a number is no prototype, so `__proto__` is left alone.
abbrev pub set_number : Text → Number → Dict Number → Dict Number
set_number name value parsed = if text_eq name proto then parsed else set name value parsed

-- The words of a line that is neither empty nor a comment.
unfoldable pub metrics_words : Dict Number → List Text → Dict Number
unfolding text_eq set is_finite
metrics_words parsed [] = parsed
metrics_words parsed (name ∷ []) = parsed
metrics_words parsed (name ∷ raw ∷ _) =
    if is_finite (to_number raw) then set_number name (to_number raw) parsed else parsed

unfoldable pub metrics_line : Dict Number → Text → Dict Number
unfolding metrics_words trim starts_with split_spaces
metrics_line parsed line =
    if is_empty (trim line) || starts_with (trim line) (codes "#")
    then parsed
    else metrics_words parsed (split_spaces (trim line))

-- The loop over the lines.
unfoldable pub parse_metrics : Text → Dict Number
unfolding metrics_line split_char
parse_metrics raw = foldl metrics_line [] (split_char 10 raw)

unfoldable pub get_metrics : (Request → Outcome) → Storage → Result (Dict Number)
unfolding fetch_text parse_metrics
get_metrics transport storage = do
  raw ← fetch_text transport storage (codes "/metrics") none
  ok (parse_metrics raw)
