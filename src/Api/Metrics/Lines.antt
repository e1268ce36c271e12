-- ===== src/Api/Metrics/Lines.antt =====
-- A page of gauges, as the daemon prints it, is read back by `getMetrics`.
use ar_csent.Prelude.{
  ◌≡◌, refl, ◌∙◌, ap, ◌≢◌, ◌≤◌, ◌^◌, false, true, List, [], ◌∷◌, ◌++◌, All, All-append, arith, ℤ,
  is_negative, abs, is_empty, append_assoc, append-nil, ℕ, sym,
}
use mathlib.Core.List.{foldl}
use ar_csent.Text.{Text, codes, text_eq, is_space, trim, split_char, starts_with}
use ar_csent.Text.Trim.{NoSpace, trim-append}
use ar_csent.Text.Split.{split_char-append, split_spaces-append}
use ar_csent.Number.{Number, decimal, is_finite}
use ar_csent.Number.Print.{show_int}
use ar_csent.Number.RoundTrip.{show_int-NoSpace, show_int-ne-nil, to_number-show_int}
use ar_csent.Dict.{Dict, set}
use ar_csent.Server.Gauges.{write_gauge, write_gauges}
use ar_csent.Api.Metrics.{proto, metrics_words, metrics_line, parse_metrics}

-- The number that a printed integer is read as.
abbrev pub number_of : ℤ → Number
number_of z = decimal (is_negative z) (abs z) 0 0

-- A name that a metrics line can carry: one word that is no comment and not `__proto__`.
pub record IsGaugeName (name : Text) : Type 0 where
  pub one_word : NoSpace name
  pub not_empty : name ≢ []
  pub no_comment : starts_with name (codes "#") ≡ false
  pub not_proto : text_eq name proto ≡ false

-- Its value fits the daemon's 64-bit integers.
abbrev pub IsGauge : Text × ℤ → Type 0
IsGauge (name, value) = IsGaugeName name × (abs value ≤ 2 ^ 63)

is_finite-number_of : (z : ℤ) → abs z ≤ 2 ^ 63 → is_finite (number_of z) ≡ true
unfolding is_finite
is_finite-number_of z h = ground arith

abbrev line : Text → ℤ → Text
line name value = name ++ 32 ∷ show_int value

trim-line : (name : Text) (value : ℤ) → IsGaugeName name → trim (line name value) ≡ line name value
trim-line name value v =
    trim-append name (32 ∷ []) (show_int value) v.one_word v.not_empty (show_int-NoSpace value)
      (show_int-ne-nil value)

starts_with-append :
    (name s : Text) (c : ℕ)
    → name ≢ []
    → starts_with name (c ∷ []) ≡ false
    → starts_with (name ++ s) (c ∷ []) ≡ false
unfolding starts_with
starts_with-append [] s c ne h = absurd (ne refl)
starts_with-append (x ∷ name) s c ne h = h

is_empty-append : (name s : Text) → name ≢ [] → is_empty (name ++ s) ≡ false
is_empty-append [] s ne = absurd (ne refl)
is_empty-append (x ∷ name) s ne = refl

metrics_words-gauge :
    (parsed : Dict Number) (name : Text) (value : ℤ)
    → IsGauge (name, value)
    → metrics_words parsed (name ∷ show_int value ∷ []) ≡ set name (number_of value) parsed
unfolding metrics_words
metrics_words-gauge parsed name value (v, fits) =
    rw (to_number-show_int value, is_finite-number_of value fits, v.not_proto)

-- One line of the page sets one entry.
metrics_line-gauge :
    (parsed : Dict Number) (name : Text) (value : ℤ)
    → IsGauge (name, value)
    → metrics_line parsed (line name value) ≡ set name (number_of value) parsed
unfolding metrics_line
metrics_line-gauge parsed name value g = rw (trim-line name value g.0) (
    ground (
      arith,
      is_empty-append name (32 ∷ show_int value) g.0.not_empty,
      starts_with-append name (32 ∷ show_int value) b'#' g.0.not_empty g.0.no_comment,
      split_spaces-append name (show_int value) g.0.one_word (show_int-NoSpace value),
      metrics_words-gauge parsed name value g,
    ))

NoSpace-no_newline : (s : Text) → NoSpace s → All (λ c. c ≢ 10) s
unfolding is_space
NoSpace-no_newline [] h = tt
NoSpace-no_newline (c ∷ s) h = (ground arith, NoSpace-no_newline s h.1)

-- The entries that a sequence of gauges sets, in order.
abbrev pub entries : Dict Number → List (Text × ℤ) → Dict Number
entries parsed [] = parsed
entries parsed ((name, value) ∷ gauges) = entries (set name (number_of value) parsed) gauges

-- The page as lines, each with its end.
abbrev page : List (Text × ℤ) → Text
page [] = []
page ((name, value) ∷ gauges) = line name value ++ 10 ∷ page gauges

write_gauges-page :
    (builder : Text) (gauges : List (Text × ℤ))
    → write_gauges builder gauges ≡ builder ++ page gauges
unfolding write_gauges
write_gauges-page builder [] = sym (append-nil builder)
write_gauges-page builder ((name, value) ∷ gauges) =
    write_gauges-page (write_gauge builder name value) gauges
    ∙ (unfold write_gauge in simp append_assoc)

lines-page :
    (parsed : Dict Number) (gauges : List (Text × ℤ))
    → All IsGauge gauges
    → foldl metrics_line parsed (split_char 10 (page gauges)) ≡ entries parsed gauges
unfolding split_char
lines-page parsed [] h = unfold metrics_line in refl
lines-page parsed ((name, value) ∷ gauges) (g, h) =
    ap (foldl metrics_line parsed) (
      split_char-append 10 (line name value) (page gauges) (
        All-append _ name _ (NoSpace-no_newline name g.0.one_word)
          (cc, NoSpace-no_newline _ (show_int-NoSpace value))))
    ∙ ap (λ d. foldl metrics_line d (split_char 10 (page gauges)))
        (metrics_line-gauge parsed name value g)
    ∙ lines-page (set name (number_of value) parsed) gauges h

-- The metrics page that the daemon writes for a sequence of gauges, with names of a gauge and values
-- of at most 2 ^ 63, is parsed into the object in which they are set one after the other.
pub parse_metrics-write_gauges :
    (gauges : List (Text × ℤ))
    → All IsGauge gauges
    → parse_metrics (write_gauges [] gauges) ≡ entries [] gauges
unfolding parse_metrics
parse_metrics-write_gauges gauges h = rw (write_gauges-page [] gauges) (lines-page [] gauges h)
