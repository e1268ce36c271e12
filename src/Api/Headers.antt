-- ===== src/Api/Headers.antt =====
-- What the requests of the client carry.
use ar_csent.Prelude.{none, ◌∙◌, ◌≡◌, Option, some}
use ar_csent.Text.{Text, text_eq}
use ar_csent.Dict.{Dict, get}
use ar_csent.Dict.Laws.{or_else, get-spread, get-set_self, NoDuplicates}
use ar_csent.Api.{
  Storage, RequestInit, fetch_request, fetch_text_request, merged_headers, get_token, set_token,
  or_empty, authorization, given_headers,
}

-- What `fetch` sends as `Authorization`: the value of the options' own headers if they name it, and
-- otherwise the stored token, or "" where there is none. No header of the options is named twice.
pub fetch_request-authorization :
    (token : Option Text) (path : Text) (options : Option RequestInit)
    → NoDuplicates (given_headers options)
    → get authorization (fetch_request token path options).headers
      ≡ or_else (get authorization (given_headers options)) (some (or_empty token))
unfolding fetch_request merged_headers get text_eq
fetch_request-authorization token path options h = get-spread authorization _ _ h

-- With options that have headers, none of them `Authorization` and none named twice, `fetch` sends
-- the stored token, or "", and `fetchText` sends no `Authorization` at all.
pub fetch_text_drops_token :
    (token : Option Text) (path : Text) (method : Option Text) (headers : Dict Text)
    → NoDuplicates headers
    → get authorization headers ≡ none
    → (let options : Option RequestInit =
          some (record { method = method; headers = some headers }) in
        (get authorization (fetch_request token path options).headers ≡ some (or_empty token))
        × (get authorization (fetch_text_request token path options).headers ≡ none))
unfolding fetch_text_request
fetch_text_drops_token token path method headers unique unnamed = (
  fetch_request-authorization token path (some (record { method = method; headers = some headers }))
        unique
      ∙ rw unnamed,
  unnamed,
)

-- A saved token is the one that every later call without options sends.
pub get_token-set_token :
    (token : Text) (storage : Storage) → get_token (set_token token storage) ≡ some token
unfolding get_token set_token
get_token-set_token token storage = get-set_self _ token storage
