-- ===== src/Examples/Daemon.antt =====
-- The daemon's handlers, alone and behind the client.
use ar_csent.Prelude.{◌≡◌, refl, false, none, some, List, [], ◌∷◌, ◌++◌, arith}
use ar_csent.Text.{Text, codes, text_eq}
use ar_csent.Dict.{get}
use ar_csent.Api.{Result, ok, err, fetch, unauthorized, get_token}
use ar_csent.Api.Types.{trigger_path, trigger_scan}
use ar_csent.Api.Metrics.{get_metrics, parse_metrics}
use ar_csent.Server.Http.{Request, Response, response, with_auth}
use ar_csent.Server.Metrics.{build_metrics}
use ar_csent.Server.Trigger.{Endpoint, Encoding, api_handler}
use ar_csent.Server.Trigger.Path.{IsScannerName, api_handler-ui_trigger_path}
use ar_csent.Server.Mux.{is_clean, lookup_pattern}
use ar_csent.Server.Ui.{Pages, ui_handler}
use ar_csent.System.{transport_to, daemon, url_query, token_of_query}
use ar_csent.System.Urls.{IsCallPath}
use ar_csent.System.Calls.{
  plain_options, fetch-unauthorized, trigger_scan_fails, get_metrics_served,
}
use ar_csent.Examples.Data.{token, storage, stats, status_text}

abbrev pub disk : Text
disk = codes "system.disk_usage"

abbrev pub plugins : List Text
plugins = disk ∷ codes "system.uptime" ∷ []

-- A stand-in for the two encodings: quotes around the text.
abbrev pub quoted : Text → Text
quoted s = codes "\"" ++ (s ++ codes "\"")

abbrev pub enc : Encoding
enc = record { quote = quoted; json_string = quoted }

abbrev pub run : Text → Result Text
run name = ok (codes "done")

abbrev answer : Endpoint → Request → Response
answer Endpoint.metrics r = response 200 (build_metrics stats)
answer e r = response 200 (codes "{}")

abbrev ask : Text → Text → Request
ask path t = record { method = codes "POST"; path = path; authorization = t; query_token = [] }

-- A web UI with the index page alone.
abbrev pub pages : Pages
pages = record {
  has_file = λ path. false;
  serve_file = λ r. response 200 (codes "file");
  serve_index = some (λ r. response 200 (codes "index"));
}

disk-IsScannerName : IsScannerName disk
disk-IsScannerName = record { not_empty = cc; not_dot = cc; not_dots = cc; plain = ground arith }

api_handler-ui_trigger_path_example :
    api_handler enc plugins run token answer (ask (codes "/api" ++ trigger_path disk) token)
    ≡ response 400
        (codes "{\"error\":\"plugin \"/api/scanners/trigger/system.disk_usage\" not found\"}\n")
api_handler-ui_trigger_path_example =
    api_handler-ui_trigger_path enc plugins run token answer disk
      (ask (codes "/api" ++ trigger_path disk) token) disk-IsScannerName (omega arith) refl refl

status-IsCallPath : IsCallPath (codes "/status")
unfolding is_clean
status-IsCallPath = record {
  rest = codes "status";
  rooted = refl;
  plain = ground arith;
  clean = refl;
}

-- Without a token: a path of the client is answered with its index page, and a call is refused.
public_page :
    ui_handler pages token none (record {
      method = codes "GET";
      path = codes "/findings";
      authorization = [];
      query_token = [];
    })
    ≡ response 200 (codes "index")
unfolding ui_handler is_clean lookup_pattern
public_page = refl

refused_call :
    ui_handler pages token none (record {
      method = codes "GET";
      path = codes "/api/findings";
      authorization = [];
      query_token = [];
    })
    ≡ response 401 []
unfolding ui_handler is_clean lookup_pattern with_auth
refused_call = refl

-- The token in a URL counts where the header is missing.
token_in_url : token_of_query (url_query (codes "/api/status?a=1&token=abc")) ≡ codes "abc"
unfolding token_of_query url_query
token_in_url = refl

fetch-unauthorized_example :
    fetch
      (transport_to status_text (daemon enc plugins run pages (codes "other") token answer))
      (λ body. ok body)
      storage
      (codes "/status")
      (plain_options none)
    ≡ err unauthorized
unfolding get_token get text_eq
fetch-unauthorized_example =
    fetch-unauthorized enc plugins run pages (codes "other") token answer status_text storage
      (λ body. ok body) (codes "/status") none status-IsCallPath (cc) (cc)

trigger_scan_fails_example :
    trigger_scan
      (transport_to status_text (daemon enc plugins run pages token token answer))
      storage
      (λ body. ok body)
      disk
    ≡ err (codes "Request failed: Bad Request")
unfolding get_token get text_eq
trigger_scan_fails_example =
    trigger_scan_fails enc plugins run pages token token answer status_text storage
      (λ body. ok body) disk disk-IsScannerName (omega arith) refl refl

get_metrics_served_example :
    get_metrics (transport_to status_text (daemon enc plugins run pages token token answer)) storage
    ≡ ok (parse_metrics (build_metrics stats))
unfolding get_token get text_eq
get_metrics_served_example =
    get_metrics_served enc plugins run pages token token answer status_text storage stats
      (λ r. refl) refl refl
