-- ===== src/System/Urls.antt =====
-- The URLs of the client's calls, web/src/lib/api.ts, as the daemon reads them.
use ar_csent.Prelude.{
  ◌≡◌, refl, All-append, is_empty, if◌then◌else◌, ◌∙◌, ap, ℕ, Bool, true, [], ◌∷◌, ◌++◌, ◌||◌, ◌==◌,
  All, arith,
}
use ar_csent.Text.{Text, codes, split_char}
use ar_csent.Dict.{get}
use ar_csent.Api as Client
use ar_csent.Api.{RequestInit, authorization, or_empty, fetch_request, fetch_text_request, post}
use ar_csent.Api.Types.{trigger_path}
use ar_csent.Server.Http.{request_token}
use ar_csent.Server.Mux.{is_clean}
use ar_csent.Server.Ui.{IsProxied}
use ar_csent.Server.Trigger.Path.{is_name_char, IsScannerName, is_clean-trigger_path}
use ar_csent.System.{to_server, url_path, url_query, token_of_query}

abbrev pub is_path_char : ℕ → Bool
is_path_char c = is_name_char c || c == b'/'

abbrev IsPlain : Text → Type 0
IsPlain = All (λ c. is_path_char c ≡ true)

-- The path of a call: it starts with a slash, is clean below /api, and has only letters, digits,
-- slashes, dots, underscores and dashes.
pub record IsCallPath (path : Text) : Type 0 where
  pub rest : Text
  pub rooted : path ≡ b'/' ∷ rest
  pub plain : All (λ c. is_path_char c ≡ true) path
  pub clean : is_clean (codes "/api" ++ path) ≡ true

url_of_IsPlain : (url : Text) → IsPlain url → (url_path url ≡ url) × (url_query url ≡ [])
unfolding url_path url_query
url_of_IsPlain [] h = (refl, refl)
url_of_IsPlain (c ∷ url) h = ground (arith, url_of_IsPlain url h.1, h.0)

api-IsPlain : (path : Text) → IsPlain path → IsPlain (codes "/api" ++ path)
api-IsPlain path h = All-append _ (codes "/api") path (ground arith) h

-- A call's URL is the path of the request, which has no token in its query.
pub path-to_server :
    (q : Client.Request) (path : Text)
    → q.url ≡ codes "/api" ++ path
    → All (λ c. is_path_char c ≡ true) path
    → (to_server q).path ≡ codes "/api" ++ path
path-to_server q path same h =
    ap url_path same ∙ (url_of_IsPlain (codes "/api" ++ path) (api-IsPlain path h)).0

if_empty : (s : Text) → (if is_empty s then [] else s) ≡ s
if_empty [] = refl
if_empty (c ∷ s) = refl

-- The token of a call is that of its header.
pub request_token-to_server :
    (q : Client.Request) (path : Text)
    → q.url ≡ codes "/api" ++ path
    → All (λ c. is_path_char c ≡ true) path
    → request_token (to_server q) ≡ or_empty (get authorization q.headers)
unfolding token_of_query split_char
request_token-to_server q path same h =
    let query =
      ap url_query same ∙ (url_of_IsPlain (codes "/api" ++ path) (api-IsPlain path h)).1 in
    let token = or_empty (get authorization q.headers) in
    ap (λ s. if is_empty token then token_of_query s else token) query ∙ if_empty token

pub IsProxied-to_server :
    (q : Client.Request) (path : Text)
    → q.url ≡ codes "/api" ++ path
    → IsCallPath path
    → IsProxied (to_server q)
IsProxied-to_server q path same call =
    let sent = path-to_server q path same call.plain in
    record {
      rest = call.rest;
      below = sent ∙ ap (λ s. codes "/api" ++ s) call.rooted;
      clean = ap is_clean sent ∙ call.clean;
    }

name-IsPlain : (name : Text) → All (λ c. is_name_char c ≡ true) name → IsPlain name
name-IsPlain [] h = tt
name-IsPlain (c ∷ name) h = (ground (arith, h.0), name-IsPlain name h.1)

-- The path that triggers a scanner is such a path.
pub trigger_path-IsCallPath : (name : Text) → IsScannerName name → IsCallPath (trigger_path name)
trigger_path-IsCallPath name v = record {
  rest = codes "scanners/trigger/" ++ name;
  rooted = refl;
  plain = All-append _ (codes "/scanners/trigger/") name (ground arith) (name-IsPlain name v.plain);
  clean = (is_clean-trigger_path name v).1;
}
