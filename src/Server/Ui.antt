-- ===== src/Server/Ui.antt =====
-- internal/webui/server.go: the handler of the web UI. Below /api/ stand its authorization and the
-- proxy to the API; every other path is answered without a token, with a file of the built client or
-- with its index page. The files and their serving by net/http are the argument `pages`.
use ar_csent.Prelude.{
  ◌≡◌, refl, ◌∙◌, ap, Bool, true, not, ◌&&◌, Option, none, some, List, [], ◌∷◌, ◌++◌, is_empty,
  if◌then◌else◌,
}
use ar_csent.Text.{Text, codes, text_eq}
use ar_csent.GoStrings.{trim_prefix}
use ar_csent.Server.Http.{Request, Response, response, with_auth}
use ar_csent.Server.Mux.{lookup_pattern, is_clean}

-- `has_file` says whether the directory dist opens a path, `serve_file` is `http.FileServer`, and
-- `serve_index` serves index.html, if that can be opened.
pub record Pages : Type 0 where
  pub has_file : Text → Bool
  pub serve_file : Request → Response
  pub serve_index : Option (Request → Response)

pub data UiRoute : Type 0 where
  proxied page : UiRoute

abbrev pub ui_routes : List (Text × UiRoute)
ui_routes = (codes "/api/", proxied) ∷ (codes "/", page) ∷ []

-- `proxyAPI`: `api` is `none` where no API address is set. The proxy passes a request on as it is.
abbrev pub proxy_api : Option (Request → Response) → Request → Response
proxy_api none r = response 503 []
proxy_api (some api) r = api r

-- `withAuthHandler`: the same check as the API's `withAuth`.
abbrev pub with_auth_handler : Text → (Request → Response) → Request → Response
with_auth_handler auth_token next r = with_auth auth_token next r

module _ (pages : Pages) where
  abbrev index_page : Option (Request → Response) → Request → Response
  index_page none r = response 500 (codes "Web UI not built\n")
  index_page (some index) r = index r

  -- The handler of the pattern "/".
  unfoldable pub serve_page : Request → Response
  unfolding trim_prefix
  serve_page r =
      let path = trim_prefix r.path (codes "/") in
      if not (is_empty path) && pages.has_file path
      then pages.serve_file r
      else index_page pages.serve_index r

  -- A path of the pattern "/" that gets a longer pattern by a slash is redirected there by net/http.
  abbrev ui_dispatch :
      Text → Option (Request → Response) → Option (Text × UiRoute) → Request → Response
  ui_dispatch ui_token api none r = response 404 (codes "404 page not found\n")
  ui_dispatch ui_token api (some (pattern, proxied)) r =
      with_auth_handler ui_token (proxy_api api) r
  ui_dispatch ui_token api (some (pattern, page)) r =
      if text_eq r.path (codes "/api") then response 301 [] else serve_page r

  -- The web UI's handler, with the token of its configuration.
  unfoldable pub ui_handler : Text → Option (Request → Response) → Request → Response
  unfolding text_eq serve_page
  ui_handler ui_token api r =
      if is_clean r.path
      then ui_dispatch ui_token api (lookup_pattern r.path ui_routes) r
      else response 301 []

-- A request for a clean path below /api/, which the web UI passes on to the API.
pub record IsProxied (r : Request) : Type 0 where
  pub rest : Text
  pub below : r.path ≡ codes "/api/" ++ rest
  pub clean : is_clean r.path ≡ true

lookup_pattern_below :
    (rest : Text) → lookup_pattern (codes "/api/" ++ rest) ui_routes ≡ some (codes "/api/", proxied)
unfolding lookup_pattern
lookup_pattern_below rest = refl

-- Such a request meets the web UI's authorization, and behind it the API.
pub ui_handler_of_IsProxied :
    (pages : Pages) (ui_token : Text) (api : Request → Response) (r : Request)
    → IsProxied r
    → ui_handler pages ui_token (some api) r ≡ with_auth ui_token api r
unfolding ui_handler
ui_handler_of_IsProxied pages ui_token api r p =
    let found : lookup_pattern r.path ui_routes ≡ some (codes "/api/", proxied) =
      ap (λ s. lookup_pattern s ui_routes) p.below ∙ lookup_pattern_below p.rest in
    rw (p.clean, found) refl
