-- ===== src/Server/Trigger/Path.antt =====
-- Triggering a scanner by its path: directly at the API, and through the web UI.
use ar_csent.Prelude.{
  ◌≡◌, ◌≢◌, refl, ◌∙◌, ap, true, false, List, [], ◌∷◌, ◌++◌, All, arith, ℕ, Bool, ◌&&◌, ◌||◌, leb,
  ◌==◌, is_empty, some,
}
use ar_csent.Text.{Text, codes, text_eq, split_char}
use ar_csent.Text.Equality.{text_eq-false, text_eq_iff}
use ar_csent.Api.{Result}
use ar_csent.Api.Types.{trigger_path}
use ar_csent.Server.Http.{Request, Response, request_token, with_auth}
use ar_csent.Server.Mux.{lookup_pattern, is_clean, clean_parts}
use ar_csent.GoStrings.{trim_prefix}
use ar_csent.Server.Trigger.{
  Endpoint, trigger, trigger_prefix, api_routes, contains, Encoding, not_found, error_response,
  run_once, answer_run, handle_trigger, serve, api_handler,
}

abbrev pub NoSlash : Text → Type 0
NoSlash = All (λ c. c ≢ b'/')

-- Letters, digits, dots, underscores and dashes, which a URL keeps as they are.
abbrev pub is_name_char : ℕ → Bool
is_name_char c =
    (leb b'a' c && leb c b'z')
    || (leb b'A' c && leb c b'Z')
    || (leb b'0' c && leb c b'9')
    || c == b'.'
    || c == b'_'
    || c == b'-'

-- The name of a scanner, as "system.disk_usage": not empty, not "." or "..", and of characters that
-- a URL keeps as they are.
pub record IsScannerName (name : Text) : Type 0 where
  pub not_empty : name ≢ []
  pub not_dot : name ≢ codes "."
  pub not_dots : name ≢ codes ".."
  pub plain : All (λ c. is_name_char c ≡ true) name

plain-NoSlash : (s : Text) → All (λ c. is_name_char c ≡ true) s → NoSlash s
plain-NoSlash [] h = tt
plain-NoSlash (c ∷ s) h = (λ e. ground (arith, h.0), plain-NoSlash s h.1)

split_char_of_NoSlash : (s : Text) → NoSlash s → split_char b'/' s ≡ s ∷ []
unfolding split_char
split_char_of_NoSlash [] h = refl
split_char_of_NoSlash (c ∷ s) h = ground (arith, split_char_of_NoSlash s h.1)

is_plain_of_IsScannerName :
    (name : Text) → IsScannerName name → clean_parts (codes "trigger" ∷ name ∷ []) ≡ true
unfolding clean_parts
is_plain_of_IsScannerName name v = ground (
  arith,
  text_eq-false name (codes ".") v.not_dot,
  text_eq-false name (codes "..") v.not_dots,
  v.not_empty,
)

-- The paths of the two ways are clean, and both lead to the trigger's handler.
pub is_clean-trigger_path :
    (name : Text)
    → IsScannerName name
    → (is_clean (trigger_path name) ≡ true) × (is_clean (codes "/api" ++ trigger_path name) ≡ true)
unfolding is_clean
is_clean-trigger_path name v =
    let plain : clean_parts (codes "trigger" ∷ split_char b'/' name) ≡ true =
      rw (split_char_of_NoSlash name (plain-NoSlash name v.plain))
        (is_plain_of_IsScannerName name v) in
    (plain, plain)

lookup_pattern-trigger_path :
    (name : Text)
    → (lookup_pattern (trigger_path name) api_routes ≡ some (trigger_prefix, trigger))
      × (lookup_pattern (codes "/api" ++ trigger_path name) api_routes
          ≡ some (codes "/api" ++ trigger_prefix, trigger))
unfolding lookup_pattern
lookup_pattern-trigger_path name = (refl, refl)

trim_prefix-trigger_path :
    (name : Text)
    → (trim_prefix (trigger_path name) trigger_prefix ≡ name)
      × (trim_prefix (codes "/api" ++ trigger_path name) trigger_prefix
          ≡ codes "/api" ++ trigger_path name)
unfolding trim_prefix
trim_prefix-trigger_path name = (refl, refl)

-- No registered name holds a slash, as none of the daemon's plugins does.
contains_of_NoSlash :
    (plugins : List Text) (rest : Text)
    → All NoSlash plugins
    → contains (b'/' ∷ rest) plugins ≡ false
unfolding text_eq
contains_of_NoSlash [] rest h = refl
contains_of_NoSlash ([] ∷ plugins) rest h = contains_of_NoSlash plugins rest h.1
contains_of_NoSlash ((c ∷ p) ∷ plugins) rest h =
    ground (arith, contains_of_NoSlash plugins rest h.1)

pub with_auth_of_eq :
    (auth_token : Text) (next : Request → Response) (r : Request)
    → request_token r ≡ auth_token
    → with_auth auth_token next r ≡ next r
unfolding with_auth
with_auth_of_eq auth_token next r e = ground (arith, text_eq_iff (request_token r) auth_token)

is_empty_of_ne : (s : Text) → s ≢ [] → is_empty s ≡ false
is_empty_of_ne [] ne = absurd (ne refl)
is_empty_of_ne (c ∷ s) ne = refl

module _ (enc : Encoding) (plugins : List Text) (run : Text → Result Text) where
  handle_trigger_of_name :
      (r : Request) (name : Text)
      → trim_prefix r.path trigger_prefix ≡ name
      → name ≢ []
      → handle_trigger enc plugins run r
        ≡ answer_run enc plugins run (run_once enc plugins run name)
  unfolding handle_trigger
  handle_trigger_of_name r name e ne = rw (e, is_empty_of_ne name ne)

module _ (enc : Encoding) (plugins : List Text) (run : Text → Result Text) (auth_token : Text)
    (answer : Endpoint → Request → Response) where
  reach_trigger :
      (pattern : Text) (r : Request)
      → is_clean r.path ≡ true
      → lookup_pattern r.path api_routes ≡ some (pattern, trigger)
      → request_token r ≡ auth_token
      → api_handler enc plugins run auth_token answer r ≡ handle_trigger enc plugins run r
  unfolding api_handler serve
  reach_trigger pattern r clean found token =
      rw (clean, found) (with_auth_of_eq auth_token _ r token)

  -- A request to the trigger's path at the API, with its token and the name of a registered plugin,
  -- runs that plugin and answers with the result, or with the error, of the run.
  pub api_handler-trigger_path :
      (name : Text) (r : Request)
      → IsScannerName name
      → contains name plugins ≡ true
      → r.path ≡ trigger_path name
      → request_token r ≡ auth_token
      → api_handler enc plugins run auth_token answer r ≡ answer_run enc plugins run (run name)
  api_handler-trigger_path name r v registered path token =
      reach_trigger trigger_prefix r (ap is_clean path ∙ (is_clean-trigger_path name v).0)
        (ap (λ p. lookup_pattern p api_routes) path ∙ (lookup_pattern-trigger_path name).0) token
      ∙ handle_trigger_of_name enc plugins run r name
          (ap (λ p. trim_prefix p trigger_prefix) path ∙ (trim_prefix-trigger_path name).0)
          v.not_empty
      ∙ (unfold run_once in rw registered)

  -- The same request below /api, as the web client sends it, never runs a plugin: the handler looks
  -- for a plugin whose name is the whole path, and answers 400. The request has the API's token, and
  -- no registered name holds a slash.
  pub api_handler-ui_trigger_path :
      (name : Text) (r : Request)
      → IsScannerName name
      → All NoSlash plugins
      → r.path ≡ codes "/api" ++ trigger_path name
      → request_token r ≡ auth_token
      → api_handler enc plugins run auth_token answer r
        ≡ error_response enc (not_found enc (codes "/api" ++ trigger_path name))
  api_handler-ui_trigger_path name r v plain path token =
      reach_trigger (codes "/api" ++ trigger_prefix) r
        (ap is_clean path ∙ (is_clean-trigger_path name v).1)
        (ap (λ p. lookup_pattern p api_routes) path ∙ (lookup_pattern-trigger_path name).1) token
      ∙ handle_trigger_of_name enc plugins run r (codes "/api" ++ trigger_path name)
          (ap (λ p. trim_prefix p trigger_prefix) path ∙ (trim_prefix-trigger_path name).1) (cc)
      ∙ (unfold run_once in rw (contains_of_NoSlash plugins _ plain))
