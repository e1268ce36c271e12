-- ===== src/System.antt =====
-- The web client and the daemon together: what the client sends reaches the web UI's server, which
-- passes it on to the API. The browser's text for a status is the argument `status_text`.
pub mod Urls
pub mod Calls
pub mod Shown
pub mod Counts
use ar_csent.Prelude.{ℕ, Option, none, some, [], ◌∷◌, List, ◌==◌, if◌then◌else◌}
use ar_csent.Text.{Text, codes, text_eq, split_char}
use ar_csent.GoStrings.{drop_prefix}
use ar_csent.Dict.{get}
use ar_csent.Api as Client
use ar_csent.Server.Http.{Request, Response}
use ar_csent.Server.Ui.{Pages, ui_handler}
use ar_csent.Server.Trigger.{Endpoint, Encoding, api_handler}
use ar_csent.Api.{Result, Outcome, responded, authorization, or_empty}

abbrev method_or_get : Option Text → Text
method_or_get none = codes "GET"
method_or_get (some m) = m

-- A URL up to its "?", and what follows that.
unfoldable pub url_path : Text → Text
url_path [] = []
url_path (c ∷ url) = let rest = url_path url in if c == b'?' then [] else c ∷ rest

unfoldable pub url_query : Text → Text
url_query [] = []
url_query (c ∷ url) = let rest = url_query url in if c == b'?' then url else rest

-- `Query().Get("token")`: the value of the first such parameter, "" if there is none.
token_among : List Text → Text
unfolding drop_prefix text_eq
token_among [] = []
token_among (piece ∷ pieces) =
    let rest = token_among pieces in
    if text_eq piece (codes "token")
    then []
    else elim (drop_prefix piece (codes "token=")) [ some value ↦ value | none ↦ rest ]

unfoldable pub token_of_query : Text → Text
unfolding token_among split_char
token_of_query query = token_among (split_char b'&' query)

-- The client's request as the daemon reads it. The URL needs no escapes and has no fragment, and a
-- token is a legal header value without white space at its ends.
abbrev pub to_server : Client.Request → Request
to_server q = record {
  method = method_or_get q.method;
  path = url_path q.url;
  authorization = or_empty (get authorization q.headers);
  query_token = token_of_query (url_query q.url);
}

abbrev pub to_client : (ℕ → Text) → Response → Client.Response
to_client status_text r = record {
  status = r.status;
  status_text = status_text r.status;
  body = r.body;
}

abbrev pub transport_to : (ℕ → Text) → (Request → Response) → Client.Request → Outcome
transport_to status_text handler q = responded (to_client status_text (handler (to_server q)))

-- The web UI in front of the API.
abbrev pub daemon :
    Encoding
    → List Text
    → (Text → Result Text)
    → Pages
    → (ui_token api_token : Text) → (Endpoint → Request → Response)
    → Request
    → Response
daemon enc plugins run pages ui_token api_token answer =
    ui_handler pages ui_token (some (api_handler enc plugins run api_token answer))
