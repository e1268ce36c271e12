-- ===== src/Server/Auth.antt =====
-- The two authorizations on the way from the web client to a handler of the API: that of the web
-- UI's server, and behind its proxy that of the API's.
use ar_csent.Prelude.{◌≡◌, ◌≢◌, ◌⊎◌, inl, inr, refl, ◌∙◌, true, some, List, [], arith, Bool-cases}
use ar_csent.Text.{Text, text_eq}
use ar_csent.Text.Equality.{text_eq_iff}
use ar_csent.Api.{Result}
use ar_csent.Server.Http.{Request, Response, response, request_token, with_auth}
use ar_csent.Server.Mux.{lookup_pattern, is_clean}
use ar_csent.Server.Trigger.{Endpoint, Encoding, api_routes, serve, api_handler}
use ar_csent.Server.Ui.{Pages, IsProxied, ui_handler, ui_handler_of_IsProxied}

-- With a token configured a request passes exactly if it carries that token.
pub with_auth_lem :
    (auth_token : Text) (next : Request → Response) (r : Request)
    → auth_token ≢ []
    → ((request_token r ≡ auth_token) → with_auth auth_token next r ≡ next r)
      × ((request_token r ≢ auth_token) → with_auth auth_token next r ≡ response 401 [])
unfolding with_auth
with_auth_lem auth_token next r set = (
  λ e. ground (arith, text_eq_iff (request_token r) auth_token),
  λ e. ground (arith, text_eq_iff (request_token r) auth_token),
)

module _ (enc : Encoding) (plugins : List Text) (run : Text → Result Text) (pages : Pages)
    (ui_token api_token : Text) (answer : Endpoint → Request → Response) (r : Request) where
  -- A route of the API, as a request for it meets it there.
  api_handler_of_route :
      (pattern : Text) (e : Endpoint)
      → is_clean r.path ≡ true
      → lookup_pattern r.path api_routes ≡ some (pattern, e)
      → api_handler enc plugins run api_token answer r
        ≡ with_auth api_token (serve enc plugins run api_token answer e) r
  unfolding api_handler
  api_handler_of_route pattern e clean found = rw (clean, found) refl

  -- With both tokens configured, a request for a route of the API below /api/ gets through the web UI
  -- the answer of that route's handler if its token is that of both servers; any other request for it
  -- is answered 401.
  pub ui_handler-api_handler :
      (pattern : Text) (e : Endpoint)
      → ui_token ≢ []
      → api_token ≢ []
      → IsProxied r
      → lookup_pattern r.path api_routes ≡ some (pattern, e)
      → ((request_token r ≡ ui_token)
          → (request_token r ≡ api_token)
          → ui_handler pages ui_token (some (api_handler enc plugins run api_token answer)) r
            ≡ serve enc plugins run api_token answer e r)
        × (((request_token r ≢ ui_token) ⊎ (request_token r ≢ api_token))
            → ui_handler pages ui_token (some (api_handler enc plugins run api_token answer)) r
              ≡ response 401 [])
  ui_handler-api_handler pattern e ui_set api_set proxied found =
      let next = serve enc plugins run api_token answer e in
      let handler = api_handler enc plugins run api_token answer in
      let ui = with_auth_lem ui_token handler r ui_set in
      let api = with_auth_lem api_token next r api_set in
      let route = api_handler_of_route pattern e proxied.clean found in
      rw (ui_handler_of_IsProxied pages ui_token handler r proxied) (
        λ same_ui same_api. ui.0 same_ui ∙ route ∙ api.0 same_api,
        λ other. elim other [
          | inl differs ↦ ui.1 differs
          | inr differs ↦ elim (Bool-cases (text_eq (request_token r) ui_token)) [
            | inl same ↦ ui.0 ((text_eq_iff _ _).0 same) ∙ route ∙ api.1 differs
            | inr unlike ↦ ui.1 (λ e. ground (arith, text_eq_iff (request_token r) ui_token))
          ]
        ],
      )
