-- ===== src/System/Shown.antt =====
-- The findings page of the client, from the results in the daemon's cache on.
use ar_csent.Prelude.{
  ℕ, ◌≡◌, refl, ◌∙◌, sym, ap, Option, none, some, List, [], ◌∷◌, ◌++◌, map, flat_map, true, ℤ,
  String, append_assoc, arith,
}
use mathlib.Core.Path.{fun_ext}
use ar_csent.Text.{Text, codes, text_eq}
use ar_csent.Dict.{get}
use ar_csent.Api.{
  Result, ok, Storage, get_token, or_empty, fetch_request, read_body, responded, ◌>>=◌,
}
use ar_csent.Api.Types as Types
use ar_csent.Api.Types.{get_findings}
use ar_csent.Components.{ClassValue}
use ar_csent.Findings.{load}
use ar_csent.Findings.View.{Dates, Page, view}
use ar_csent.Findings.View.Rows.{badges-view}
use ar_csent.Jsx.{badges}
use ar_csent.Results.{
  Finding, ScanResult, FindingSummary, ResultCache, new_cache, findings_history, limit_of,
}
use ar_csent.Results.History.{add_all, history-add_all, last}
use ar_csent.Server.Handlers.{Forms, Backend, answer}
use ar_csent.Server.Http.{Request, Response, request_token}
use ar_csent.Server.Ui.{Pages, ui_handler_of_IsProxied}
use ar_csent.Server.Mux.{is_clean, lookup_pattern}
use ar_csent.Server.Trigger.{Endpoint, Encoding, findings, api_routes, api_handler, serve}
use ar_csent.Server.Trigger.Path.{with_auth_of_eq}
use ar_csent.System.{to_client, to_server, transport_to, daemon}
use ar_csent.System.Urls.{IsCallPath, path-to_server, request_token-to_server, IsProxied-to_server}

findings-IsCallPath : IsCallPath (codes "/findings")
unfolding is_clean
findings-IsCallPath = record {
  rest = codes "findings";
  rooted = refl;
  plain = ground arith;
  clean = refl;
}

request_token-findings :
    (token : Option Text)
    → request_token (to_server (fetch_request token (codes "/findings") none)) ≡ or_empty token
unfolding fetch_request get text_eq
request_token-findings token =
    request_token-to_server (fetch_request token (codes "/findings") none) (codes "/findings") refl
      findings-IsCallPath.plain

findings_found :
    (is_clean (codes "/api/findings") ≡ true)
    × (lookup_pattern (codes "/api/findings") api_routes ≡ some (codes "/api/findings", findings))
unfolding is_clean lookup_pattern
findings_found = (refl, refl)

findings_served :
    (enc : Encoding) (plugins : List Text) (run : Text → Result Text) (api_token : Text)
    (answers : Endpoint → Request → Response) (r : Request)
    → r.path ≡ codes "/api/findings"
    → request_token r ≡ api_token
    → api_handler enc plugins run api_token answers r ≡ answers findings r
unfolding api_handler serve
findings_served enc plugins run api_token answers r path token =
    let clean : is_clean r.path ≡ true = ap is_clean path ∙ findings_found.0 in
    let found : lookup_pattern r.path api_routes ≡ some (codes "/api/findings", findings) =
      ap (λ p. lookup_pattern p api_routes) path ∙ findings_found.1 in
    rw (clean, found)
      (with_auth_of_eq api_token (serve enc plugins run api_token answers findings) r token)

-- What the page shows of a finding.
abbrev pub labels : {J : Type 0} → Finding J → List Text
labels f = f.severity ∷ f.category ∷ []

abbrev pub summary_labels : {T : Type 0} → FindingSummary T → List Text
summary_labels s = s.severity ∷ s.category ∷ []

abbrev pub client_labels : Types.Finding → List Text
client_labels f = f.severity ∷ f.category ∷ []

-- The labels of the summaries of a list of results are those of their findings.
flat_map-map {ℓ κ μ} :
    {A : Type ℓ} {B : Type κ} {C : Type μ} (g : B → List C) (f : A → B) (xs : List A)
    → flat_map g (map f xs) ≡ flat_map (λ x. g (f x)) xs
flat_map-map g f [] = refl
flat_map-map g f (x ∷ xs) = ap (λ r. g (f x) ++ r) (flat_map-map g f xs)

flat_map-append {ℓ κ} :
    {A : Type ℓ} {B : Type κ} (g : A → List B) (xs ys : List A)
    → flat_map g (xs ++ ys) ≡ flat_map g xs ++ flat_map g ys
flat_map-append g [] ys = refl
flat_map-append g (x ∷ xs) ys = ap (λ r. g x ++ r) (flat_map-append g xs ys) ∙ simp append_assoc

flat_map-flat_map {ℓ κ μ} :
    {A : Type ℓ} {B : Type κ} {C : Type μ} (g : B → List C) (f : A → List B) (xs : List A)
    → flat_map g (flat_map f xs) ≡ flat_map (λ x. flat_map g (f x)) xs
flat_map-flat_map g f [] = refl
flat_map-flat_map g f (x ∷ xs) =
    flat_map-append g (f x) (flat_map f xs)
    ∙ ap (λ r. flat_map g (f x) ++ r) (flat_map-flat_map g f xs)

labels-findings_history :
    {J : Type 0} (c : ResultCache ℕ J)
    → flat_map summary_labels (findings_history c)
      ≡ flat_map (λ res. flat_map labels res.findings) c.history
unfolding findings_history
labels-findings_history c =
    flat_map-flat_map summary_labels _ c.history
    ∙ ap (λ g. flat_map g c.history) (fun_ext (λ res. flat_map-map summary_labels _ res.findings))

module _ {F J Status : Type 0} (enc : Encoding) (plugins : List Text) (run : Text → Result Text)
    (pages : Pages) (ui_token api_token : Text) (forms : Forms F J Status)
    (backend : Backend F J Status) (format : Request → Text) (status_text : ℕ → Text)
    (storage : Storage) where
  -- With the right token, which both servers share, the client gets the findings of the cache as its
  -- decoding reads them.
  get_findings_served :
      (decode : Text → Result (List Types.Finding)) (received : List Types.Finding)
      → decode (forms.findings (findings_history backend.cache)) ≡ ok received
      → or_empty (get_token storage) ≡ ui_token
      → ui_token ≡ api_token
      → get_findings
          (transport_to status_text
            (daemon enc plugins run pages ui_token api_token (answer forms backend format)))
          storage
          decode
        ≡ ok received
  unfolding get_findings answer
  get_findings_served decode received decodes token same =
      let q = fetch_request (get_token storage) (codes "/findings") none in
      let url : q.url ≡ codes "/api/findings" = unfold fetch_request in refl in
      let sent = request_token-findings (get_token storage) ∙ token in
      let api = api_handler enc plugins run api_token (answer forms backend format) in
      ap (λ res. read_body (responded (to_client status_text res)) >>= decode)
        (ui_handler_of_IsProxied pages ui_token api (to_server q)
            (IsProxied-to_server q (codes "/findings") url findings-IsCallPath)
          ∙ with_auth_of_eq ui_token api (to_server q) sent
          ∙ findings_served enc plugins run api_token (answer forms backend format) (to_server q)
              (path-to_server q (codes "/findings") url findings-IsCallPath.plain) (sent ∙ same))
      ∙ decodes

  -- With the right token, which both servers share: if the cache holds what any sequence of results
  -- left in a new one, and the client's decoding gives the findings that the API sends with their
  -- severities and categories, then the findings page, where it renders, shows as badges the severity
  -- and the category of every finding of the last results up to the cache's limit, in their order.
  pub badges-findings_page :
      (clsx : List ClassValue → String) (dates : Dates)
      (decode : Text → Result (List Types.Finding)) (received : List Types.Finding)
      (shown : List Types.Finding) (page : Page clsx dates) (limit : ℤ)
      (results : List (ScanResult ℕ J))
      → backend.cache ≡ add_all results (new_cache limit)
      → decode (forms.findings (findings_history backend.cache)) ≡ ok received
      → map client_labels received ≡ map summary_labels (findings_history backend.cache)
      → or_empty (get_token storage) ≡ ui_token
      → ui_token ≡ api_token
      → view clsx dates (
          load
            (get_findings
              (transport_to status_text
                (daemon enc plugins run pages ui_token api_token (answer forms backend format)))
              storage
              decode)
            shown)
        ≡ some page
      → badges page ≡ flat_map (λ res. flat_map labels res.findings) (last (limit_of limit) results)
  unfolding load
  badges-findings_page clsx dates decode received shown page limit results cached decodes kept token
        same rendered =
      let served = get_findings_served decode received decodes token same in
      badges-view clsx dates received page
        (sym (ap (λ r. view clsx dates (load r shown)) served) ∙ rendered)
      ∙ sym (flat_map-map (λ x. x) client_labels received)
      ∙ ap (flat_map (λ x. x)) kept
      ∙ flat_map-map (λ x. x) summary_labels (findings_history backend.cache)
      ∙ labels-findings_history backend.cache
      ∙ ap (λ h. flat_map (λ res. flat_map labels res.findings) h)
          (ap (λ c. c.history) cached ∙ history-add_all limit results)
