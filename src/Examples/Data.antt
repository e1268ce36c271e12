-- ===== src/Examples/Data.antt =====
-- The inputs that the examples share.
use ar_csent.Prelude.{ℕ, false, none, some, List, [], ◌∷◌, String, pos}
use ar_csent.Text.{Text, codes}
use ar_csent.Number.{Number, nan, infinity, decimal}
use ar_csent.Number.Print.{show_nat, show_int}
use ar_csent.Api.{Storage, token_key}
use ar_csent.Components.{ClassValue, name, off, undefined}
use ar_csent.Dashboard.Format.{Platform}
use ar_csent.Server.Metrics.{Stats}

-- A stand-in for `clsx`: the first class.
abbrev pub first_class : List ClassValue → String
first_class [] = ""
first_class (name c ∷ classes) = c
first_class (off ∷ classes) = first_class classes
first_class (undefined ∷ classes) = first_class classes

abbrev shown : Number → Text
shown nan = codes "NaN"
shown (infinity neg) = codes "Infinity"
shown (decimal neg m up down) = show_nat m

abbrev pub platform : Platform
platform = record {
  parse_time = λ t. some (pos 1000);
  to_locale_string = λ t. show_int t;
  show_number = shown;
}

abbrev pub token : Text
token = codes "secret"

abbrev pub storage : Storage
storage = (token_key, token) ∷ []

abbrev pub status_text : ℕ → Text
status_text n = codes "Bad Request"

abbrev pub stats : Stats
stats = record {
  running_as_root = false;
  plugins = some 8;
  jobs = some 5;
  results = some (120, 7);
  signatures = some (record {
    source_errors = [] ∷ codes "timeout" ∷ [];
    last_run = some (pos 1700000000);
    next_run = none;
  });
}
