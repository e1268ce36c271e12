-- ===== src/System/Calls.antt =====
-- The calls of the client, against the daemon. All its URLs stand below /api, so the web UI's page
-- handler is never met.
use ar_csent.Prelude.{
  ℕ, ◌≡◌, ◌≢◌, refl, ◌∙◌, sym, ap, Option, none, some, List, [], ◌++◌, All, true, arith,
}
use ar_csent.Text.{Text, codes, text_eq}
use ar_csent.Dict.{get}
use ar_csent.Api as Client
use ar_csent.Api.{
  Result, ok, err, Storage, RequestInit, get_token, or_empty, fetch, fetch_text, fetch_request,
  fetch_text_request, read_body, unauthorized, request_failed, post, authorization, responded,
  ◌>>=◌,
}
use ar_csent.Api.Types.{trigger_path, trigger_scan}
use ar_csent.Dashboard.Outcomes.{get_metrics_of_Serves}
use ar_csent.Api.Metrics.{get_metrics, parse_metrics}
use ar_csent.Server.Http.{Request, Response, response, request_token, with_auth}
use ar_csent.Server.Ui.{Pages, ui_handler_of_IsProxied}
use ar_csent.Server.Auth.{with_auth_lem}
use ar_csent.Server.Mux.{is_clean, lookup_pattern}
use ar_csent.Server.Metrics.{Stats, build_metrics}
use ar_csent.Server.Trigger.{Endpoint, Encoding, metrics, api_routes, api_handler, serve}
use ar_csent.Server.Trigger.Path.{
  with_auth_of_eq, IsScannerName, NoSlash, api_handler-ui_trigger_path,
}
use ar_csent.System.{to_client, to_server, transport_to, daemon}
use ar_csent.System.Urls.{
  IsCallPath, path-to_server, request_token-to_server, IsProxied-to_server, trigger_path-IsCallPath,
}

-- Options without headers of their own, as the client always gives them.
abbrev pub plain_options : Option Text → Option RequestInit
plain_options method = some (record { method = method; headers = none })

-- The daemon finds the client's token in the request, or "" if there is none.
request_token-fetch_request :
    (token method : Option Text) (path : Text)
    → IsCallPath path
    → request_token (to_server (fetch_request token path (plain_options method))) ≡ or_empty token
unfolding fetch_request get text_eq
request_token-fetch_request token method path call =
    request_token-to_server (fetch_request token path (plain_options method)) path refl call.plain

request_token-fetch_text_request :
    (token : Option Text) (path : Text)
    → IsCallPath path
    → request_token (to_server (fetch_text_request token path none)) ≡ or_empty token
unfolding fetch_text_request get text_eq
request_token-fetch_text_request token path call =
    request_token-to_server (fetch_text_request token path none) path refl call.plain

metrics-IsCallPath : IsCallPath (codes "/metrics")
unfolding is_clean
metrics-IsCallPath = record {
  rest = codes "metrics";
  rooted = refl;
  plain = ground arith;
  clean = refl;
}

-- The path of the metrics page leads to its handler.
metrics_found :
    (is_clean (codes "/api/metrics") ≡ true)
    × (lookup_pattern (codes "/api/metrics") api_routes ≡ some (codes "/api/metrics", metrics))
unfolding is_clean lookup_pattern
metrics_found = (refl, refl)

metrics_served :
    (enc : Encoding) (plugins : List Text) (run : Text → Result Text) (api_token : Text)
    (answer : Endpoint → Request → Response) (r : Request)
    → r.path ≡ codes "/api/metrics"
    → request_token r ≡ api_token
    → api_handler enc plugins run api_token answer r ≡ answer metrics r
unfolding api_handler serve
metrics_served enc plugins run api_token answer r path token =
    let clean : is_clean r.path ≡ true = ap is_clean path ∙ metrics_found.0 in
    let found : lookup_pattern r.path api_routes ≡ some (codes "/api/metrics", metrics) =
      ap (λ p. lookup_pattern p api_routes) path ∙ metrics_found.1 in
    rw (clean, found)
      (with_auth_of_eq api_token (serve enc plugins run api_token answer metrics) r token)

module _ (enc : Encoding) (plugins : List Text) (run : Text → Result Text) (pages : Pages)
    (ui_token api_token : Text) (answer : Endpoint → Request → Response) (status_text : ℕ → Text)
    (storage : Storage) where
  -- The web UI puts its authorization in front of the API for every call of the client.
  guarded :
      (q : Client.Request) (path : Text)
      → q.url ≡ codes "/api" ++ path
      → IsCallPath path
      → daemon enc plugins run pages ui_token api_token answer (to_server q)
        ≡ with_auth ui_token (api_handler enc plugins run api_token answer) (to_server q)
  guarded q path same call =
      ui_handler_of_IsProxied pages ui_token (api_handler enc plugins run api_token answer)
        (to_server q) (IsProxied-to_server q path same call)

  -- With another token than the one configured for the web UI, or with none, every JSON call of the
  -- client without headers of its own fails with "Unauthorized". Its path is clean and without a
  -- query, as those of all calls of the client are.
  pub fetch-unauthorized :
      {A : Type 0} (decode : Text → Result A) (path : Text) (method : Option Text)
      → IsCallPath path
      → ui_token ≢ []
      → or_empty (get_token storage) ≢ ui_token
      → fetch
          (transport_to status_text (daemon enc plugins run pages ui_token api_token answer))
          decode
          storage
          path
          (plain_options method)
        ≡ err unauthorized
  unfolding fetch
  fetch-unauthorized decode path method call set other =
      let q = fetch_request (get_token storage) path (plain_options method) in
      ap (λ res. read_body (responded (to_client status_text res)) >>= decode)
        (guarded q path (unfold fetch_request in refl) call
          ∙ (with_auth_lem ui_token (api_handler enc plugins run api_token answer) (to_server q)
                set).1
              (λ e.
                other (sym (request_token-fetch_request (get_token storage) method path call) ∙ e)))

  -- The web UI passes a call with the right token on to the API.
  passed_on :
      (q : Client.Request) (path : Text)
      → q.url ≡ codes "/api" ++ path
      → IsCallPath path
      → request_token (to_server q) ≡ ui_token
      → daemon enc plugins run pages ui_token api_token answer (to_server q)
        ≡ api_handler enc plugins run api_token answer (to_server q)
  passed_on q path same call e =
      guarded q path same call
      ∙ with_auth_of_eq ui_token (api_handler enc plugins run api_token answer) (to_server q) e

  -- With the right token, which both servers share, triggering a scanner of any name that a URL
  -- keeps as it is from the web client fails with the text of the status 400, whatever the plugins
  -- do when they run. No registered name holds a slash.
  pub trigger_scan_fails :
      {J : Type 0} (decode : Text → Result J) (name : Text)
      → IsScannerName name
      → All NoSlash plugins
      → or_empty (get_token storage) ≡ ui_token
      → ui_token ≡ api_token
      → trigger_scan
          (transport_to status_text (daemon enc plugins run pages ui_token api_token answer))
          storage
          decode
          name
        ≡ err (request_failed (status_text 400))
  unfolding trigger_scan
  trigger_scan_fails decode name v plain token same =
      let q = fetch_request (get_token storage) (trigger_path name) post in
      let call = trigger_path-IsCallPath name v in
      let url : q.url ≡ codes "/api" ++ trigger_path name = unfold fetch_request in refl in
      let sent =
        request_token-fetch_request (get_token storage) (some (codes "POST")) (trigger_path name)
          call
        ∙ token in
      ap (λ res. read_body (responded (to_client status_text res)) >>= decode)
        (passed_on q (trigger_path name) url call sent
          ∙ api_handler-ui_trigger_path enc plugins run api_token answer name (to_server q) v plain
              (path-to_server q (trigger_path name) url call.plain) (sent ∙ same))

  -- With the right token, which both servers share, the client gets the daemon's metrics page, as
  -- `getMetrics` parses it, where the handler of the metrics answers with that page.
  pub get_metrics_served :
      (stats : Stats)
      → ((r : Request) → answer metrics r ≡ response 200 (build_metrics stats))
      → or_empty (get_token storage) ≡ ui_token
      → ui_token ≡ api_token
      → get_metrics
          (transport_to status_text (daemon enc plugins run pages ui_token api_token answer))
          storage
        ≡ ok (parse_metrics (build_metrics stats))
  get_metrics_served stats answers token same =
      let q = fetch_text_request (get_token storage) (codes "/metrics") none in
      let url : q.url ≡ codes "/api/metrics" = unfold fetch_text_request in refl in
      let sent =
        request_token-fetch_text_request (get_token storage) (codes "/metrics") metrics-IsCallPath
        ∙ token in
      get_metrics_of_Serves _ storage stats (
        status_text 200,
        ap (λ res. responded (to_client status_text res))
            (passed_on q (codes "/metrics") url metrics-IsCallPath sent
              ∙ metrics_served enc plugins run api_token answer (to_server q)
                  (path-to_server q (codes "/metrics") url metrics-IsCallPath.plain) (sent ∙ same)
              ∙ answers (to_server q)),
      )
