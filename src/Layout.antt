-- ===== src/Layout.antt =====
-- web/src/Layout.tsx and web/src/App.tsx: the sidebar, the logout and the routes. Whether a route's
-- path matches a location is wouter's, and is the argument `matches`.
pub mod View
pub mod Routes
use ar_csent.Prelude.{Bool, List, [], ◌∷◌, if◌then◌else◌}
use ar_csent.Text.{Text, codes, text_eq}
use ar_csent.Api.{Storage, set_token}

pub record NavItem : Type 0 where
  pub href : Text
  pub label : Text

abbrev nav_item : Text → Text → NavItem
nav_item href label = record { href = href; label = label }

abbrev pub root_href : Text
root_href = codes "/"

abbrev pub scanners_href : Text
scanners_href = codes "/scanners"

abbrev pub findings_href : Text
findings_href = codes "/findings"

abbrev pub settings_href : Text
settings_href = codes "/settings"

abbrev pub nav_items : List NavItem
nav_items =
    nav_item root_href (codes "Dashboard")
    ∷ nav_item scanners_href (codes "Scanners")
    ∷ nav_item findings_href (codes "Findings")
    ∷ nav_item settings_href (codes "Settings")
    ∷ []

-- `location === item.href`
unfoldable pub is_active : Text → NavItem → Bool
unfolding text_eq
is_active location item = text_eq location item.href

-- `handleLogout`: the token is emptied, and the page loaded again.
unfoldable pub handle_logout : Storage → Storage
unfolding set_token
handle_logout storage = set_token [] storage

pub data Page : Type 0 where
  dashboard scanners findings settings not_found : Page

-- The children of `<Switch>`; the last route has no path and matches every location.
abbrev pub routes : List (Text × Page)
routes =
    (root_href, Page.dashboard)
    ∷ (scanners_href, Page.scanners)
    ∷ (findings_href, Page.findings)
    ∷ (settings_href, Page.settings)
    ∷ []

module _ (matches : Text → Text → Bool) (location : Text) where
  first_route : List (Text × Page) → Page
  first_route [] = Page.not_found
  first_route ((path, page) ∷ rest) =
      let later = first_route rest in if matches path location then page else later

  -- `<Switch>` renders the first route that matches.
  unfoldable pub switch : Page
  unfolding first_route
  switch = first_route routes
