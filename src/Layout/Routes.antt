-- ===== src/Layout/Routes.antt =====
-- web/src/Layout.tsx and web/src/App.tsx: the links of the sidebar against the routes.
use ar_csent.Prelude.{
  ◌≡◌, ◌↔◌, Bool, false, not, [], All, all, length, filter, arith, none, some, if◌then◌else◌,
}
use ar_csent.Text.{Text, text_eq}
use ar_csent.Text.Equality.{text_eq_iff}
use ar_csent.Dict.{get}
use ar_csent.Api.{Storage, get_token, authorization, fetch_request}
use ar_csent.Api.Headers.{get_token-set_token}
use ar_csent.Layout.{
  nav_items, root_href, scanners_href, findings_href, settings_href, is_active, handle_logout, Page,
  routes, switch,
}

-- What the client relies on of wouter, for the four paths of its routes, which have no parameters:
-- such a path matches the location of that path, and of the four no other.
abbrev pub MatchesLiterally : (Text → Text → Bool) → Type 0
MatchesLiterally matches = All (λ r. All (λ q. matches r.0 q.0 ≡ text_eq r.0 q.0) routes) routes

-- Each link of the sidebar leads to the page of its own name, and so to none of the others and not
-- to "404", if the router matches the four paths literally.
pub switch-nav_items :
    (matches : Text → Text → Bool)
    → MatchesLiterally matches
    → (switch matches root_href ≡ Page.dashboard)
      × (switch matches scanners_href ≡ Page.scanners)
      × (switch matches findings_href ≡ Page.findings)
      × (switch matches settings_href ≡ Page.settings)
unfolding switch text_eq
switch-nav_items matches h = ground arith

-- "404" is shown exactly at the locations that no route's path matches.
pub switch-not_found_iff :
    (matches : Text → Text → Bool) (location : Text)
    → (switch matches location ≡ Page.not_found) ↔ All (λ r. matches r.0 location ≡ false) routes
unfolding switch
switch-not_found_iff matches location = (λ h. ground arith, λ h. ground arith)

-- The sidebar marks one link at the location of a link, and none elsewhere.
pub active_count :
    (location : Text)
    → length (filter (is_active location) nav_items)
      ≡ (if all (λ item. not (text_eq location item.href)) nav_items then 0 else 1)
unfolding is_active
active_count location =
    let root = text_eq_iff location root_href in
    let scanners = text_eq_iff location scanners_href in
    let findings = text_eq_iff location findings_href in
    let settings = text_eq_iff location settings_href in ground arith

-- After a logout every JSON call without options of its own sends an empty token.
pub handle_logout-authorization :
    (storage : Storage) (path : Text)
    → get authorization (fetch_request (get_token (handle_logout storage)) path none).headers
      ≡ some []
unfolding handle_logout fetch_request get text_eq
handle_logout-authorization storage path = rw (get_token-set_token [] storage)
