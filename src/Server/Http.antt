-- ===== src/Server/Http.antt =====
-- The requests and responses of the daemon's handlers, and the authorization of the API: `withAuth` of
-- internal/api/server.go.
use ar_csent.Prelude.{ℕ, not, ◌&&◌, [], is_empty, if◌then◌else◌}
use ar_csent.Text.{Text, text_eq}

-- `authorization` is the header's value and `query_token` the parameter `token` of the URL, "" where
-- they are missing.
pub record Request : Type 0 where
  pub method : Text
  pub path : Text
  pub authorization : Text
  pub query_token : Text

pub record Response : Type 0 where
  pub status : ℕ
  pub body : Text

abbrev pub response : ℕ → Text → Response
response status body = record { status = status; body = body }

abbrev pub request_token : Request → Text
request_token r = if is_empty r.authorization then r.query_token else r.authorization

unfoldable pub with_auth : Text → (Request → Response) → Request → Response
unfolding text_eq
with_auth auth_token next r =
    if not (is_empty auth_token) && not (text_eq (request_token r) auth_token)
    then response 401 []
    else next r
