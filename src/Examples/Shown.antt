-- ===== src/Examples/Shown.antt =====
-- The findings page on three results, of which the cache keeps two.
use ar_csent.Prelude.{ℕ, ◌≡◌, refl, false, Option, none, List, [], map, flat_map, pos}
use ar_csent.Text.{Text, codes, text_eq}
use ar_csent.Dict.{get, set}
use ar_csent.Api.{Result, ok}
use ar_csent.Api.Types
use ar_csent.Api.Types.{get_findings}
use ar_csent.Findings.{load}
use ar_csent.Findings.View.{Page, view, time_text}
use ar_csent.Jsx.{badges}
use ar_csent.Results.{FindingSummary, findings_history, new_cache, add}
use ar_csent.Results.History.{last}
use ar_csent.Server.Handlers.{Forms, Backend, answer}
use ar_csent.Server.Http.{Request, with_auth}
use ar_csent.Server.Ui.{ui_handler}
use ar_csent.Server.Mux.{is_clean, lookup_pattern}
use ar_csent.Server.Trigger.{api_handler, serve}
use ar_csent.System.{url_path}
use ar_csent.System.Shown.{labels, badges-findings_page}
use ar_csent.Examples.Daemon.{enc, plugins, run, pages, quoted}
use ar_csent.Examples.Data.{first_class, token, storage, stats, status_text}
use ar_csent.Examples.Pages.{dates, or_lit}
use ar_csent.Examples.Results.{results, cache}

-- Stand-ins for the encodings.
abbrev pub forms_with : {Status : Type 0} → (Status → Text) → Forms ℕ Unit Status
forms_with show = record {
  health = codes "{}";
  running = λ root. codes "{}";
  error = quoted;
  empty_list = codes "[]";
  empty_object = codes "{}";
  scanners = λ a. codes "{}";
  summaries = λ xs. codes "[]";
  findings = λ xs. codes "[]";
  results = λ xs. codes "[]";
  baselines = λ xs. codes "[]";
  signatures = show;
  csv = λ rows. [];
  integer = λ n. [];
  decimal = λ n. [];
  rfc3339 = λ n. [];
  duration = λ d. [];
}

abbrev pub forms : Forms ℕ Unit Unit
forms = forms_with (λ s. codes "{}")

abbrev pub backend_of :
    {Status : Type 0} → Option (Result Status) → Option (Result Status) → Backend ℕ Unit Status
backend_of signatures triggered = record {
  running_as_root = false;
  plugins = plugins;
  jobs = [];
  cache = cache;
  baselines = none;
  stored = none;
  signatures = signatures;
  triggered = triggered;
  stats = stats;
}

abbrev pub backend : Backend ℕ Unit Unit
backend = backend_of none none

abbrev client_finding : FindingSummary ℕ → Types.Finding
client_finding s = record {
  scanner_name = s.scanner_name;
  severity = s.severity;
  category = s.category;
  description = s.description;
  occurred_at = codes "2024-01-01T00:00:00Z";
  remediation = none;
  evidence = none;
}

abbrev received : List Types.Finding
received = map client_finding (findings_history cache)

abbrev decode : Text → Result (List Types.Finding)
decode body = ok received

abbrev no_format : Request → Text
no_format r = []

abbrev page : Page first_class dates
page = or_lit (view first_class dates received)

badges-findings_page_example :
    badges page ≡ flat_map (λ res. flat_map labels res.findings) (last 2 results)
unfolding findings_history new_cache add view load get_findings get set text_eq answer ui_handler
    api_handler is_clean lookup_pattern serve time_text url_path with_auth
badges-findings_page_example =
    badges-findings_page enc plugins run pages token token forms backend no_format status_text
      storage first_class dates decode received [] page (pos 2) results refl refl refl refl refl
      refl
