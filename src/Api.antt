-- ===== src/Api.antt =====
-- web/src/lib/api.ts: the token in local storage, the requests that the client sends, and what it
-- makes of the responses. `fetch` of the browser is the argument `transport`, and the parsing of a
-- JSON body into the declared interface is the argument `decode`.
pub mod Types
pub mod Metrics
pub mod Headers
pub mod Responses
use ar_csent.Prelude.{
  ℕ, Bool, true, false, not, ◌&&◌, Option, none, some, List, [], ◌∷◌, ◌++◌, ltb, leb, ◌==◌,
  if◌then◌else◌,
}
use ar_csent.Text.{Text, codes}
use ar_csent.Dict.{Dict, get, set, spread}

-- A promise's outcome: its value, or the message of the error that it is rejected with.
pub data Result {ℓ} (A : Type ℓ) : Type ℓ where
  ok : A → Result A
  err : Text → Result A

-- Local storage, and the parts of the request that the client writes.
abbrev pub Storage : Type 0
Storage = Dict Text

pub record RequestInit : Type 0 where
  pub method : Option Text
  pub headers : Option (Dict Text)

pub record Request : Type 0 where
  pub url : Text
  pub method : Option Text
  pub headers : Dict Text

pub record Response : Type 0 where
  pub status : ℕ
  pub status_text : Text
  pub body : Text

-- `responded` has the response; `rejected` is a network error with its message.
pub data Outcome : Type 0 where
  responded : Response → Outcome
  rejected : Text → Outcome

abbrev pub token_key : Text
token_key = codes "arcsent_token"

unfoldable pub get_token : Storage → Option Text
unfolding get
get_token storage = get token_key storage

unfoldable pub set_token : Text → Storage → Storage
unfolding set
set_token token storage = set token_key token storage

-- `x || ""`
abbrev pub or_empty : Option Text → Text
or_empty none = []
or_empty (some t) = t

abbrev pub authorization : Text
authorization = codes "Authorization"

abbrev pub content_type : Text
content_type = codes "Content-Type"

-- The two headers that a request starts from.
abbrev default_headers : Option Text → Text → Dict Text
default_headers token kind = (authorization, or_empty token) ∷ (content_type, kind) ∷ []

abbrev given_headers : Option RequestInit → Dict Text
given_headers none = []
given_headers (some options) = elim options.headers [ none ↦ [] | some h ↦ h ]

abbrev given_method : Option RequestInit → Option Text
given_method none = none
given_method (some options) = options.method

-- `{ Authorization: token || "", "Content-Type": kind, ...options?.headers }`
unfoldable pub merged_headers : Option Text → Text → Option RequestInit → Dict Text
unfolding spread
merged_headers token kind options = spread (default_headers token kind) (given_headers options)

-- What `fetch` hands to the browser: `{ ...options, headers }`, so the merged headers stand.
unfoldable pub fetch_request : Option Text → Text → Option RequestInit → Request
unfolding merged_headers
fetch_request token path options = record {
  url = codes "/api" ++ path;
  method = given_method options;
  headers = merged_headers token (codes "application/json") options;
}

-- `{ headers, ...options }`: headers of the options replace the merged ones.
abbrev replaced_headers : Dict Text → Option RequestInit → Dict Text
replaced_headers merged none = merged
replaced_headers merged (some options) = elim options.headers [ none ↦ merged | some h ↦ h ]

unfoldable pub fetch_text_request : Option Text → Text → Option RequestInit → Request
unfolding merged_headers
fetch_text_request token path options = record {
  url = codes "/api" ++ path;
  method = given_method options;
  headers = replaced_headers (merged_headers token (codes "text/plain") options) options;
}

-- `res.ok`
abbrev pub is_ok : ℕ → Bool
is_ok status = leb 200 status && leb status 299

abbrev pub unauthorized : Text
unauthorized = codes "Unauthorized"

abbrev pub request_failed : Text → Text
request_failed status_text = codes "Request failed: " ++ status_text

-- The body of a response that is `ok`, and the error otherwise.
unfoldable pub read_body : Outcome → Result Text
read_body (rejected message) = err message
read_body (responded res) =
    if is_ok res.status
    then ok res.body
    else if res.status == 401
    then err unauthorized
    else err (request_failed res.status_text)

infixl 5 ◌>>=◌
abbrev pub ◌>>=◌ {ℓ κ} : {A : Type ℓ} {B : Type κ} → Result A → (A → Result B) → Result B
ok a >>= f = f a
err e >>= f = err e

module _ {ℓ} {A : Type ℓ} (transport : Request → Outcome) (decode : Text → Result A) where
  -- `api.fetch`
  unfoldable pub fetch : Storage → Text → Option RequestInit → Result A
  unfolding fetch_request get_token read_body
  fetch storage path options = do
    body ← read_body (transport (fetch_request (get_token storage) path options))
    decode body

-- `api.fetchText`
unfoldable pub fetch_text : (Request → Outcome) → Storage → Text → Option RequestInit → Result Text
unfolding fetch_text_request get_token read_body
fetch_text transport storage path options =
    read_body (transport (fetch_text_request (get_token storage) path options))

abbrev pub post : Option RequestInit
post = some (record { method = some (codes "POST"); headers = none })
