-- ===== src/Server/Trigger.antt =====
-- internal/api/server.go: the routes of the API and the handler that triggers a scanner; with
-- `RunOnce` of internal/scheduler/scheduler.go and `Get` of internal/scanner/manager.go. What a
-- plugin does when it runs is the argument `run`: the error of the run, or the line of JSON that its
-- result is written as. What the other handlers answer is `answer`.
pub mod Path
use ar_csent.Prelude.{
  Bool, false, ◌||◌, Option, none, some, List, [], ◌∷◌, ◌++◌, is_empty, ◌==◌, if◌then◌else◌,
}
use ar_csent.Text.{Text, codes, text_eq}
use ar_csent.GoStrings.{trim_prefix}
use ar_csent.Api.{Result, ok, err}
use ar_csent.Server.Http.{Request, Response, response, with_auth}
use ar_csent.Server.Mux.{lookup_pattern, is_clean}

pub data Endpoint : Type 0 where
  health status scanners trigger latest history findings baselines export_results : Endpoint
  export_baselines signatures_status signatures_update metrics : Endpoint

-- `register`: each path alone and below /api.
abbrev register : Text → Endpoint → List (Text × Endpoint)
register path e = (path, e) ∷ (codes "/api" ++ path, e) ∷ []

abbrev pub trigger_prefix : Text
trigger_prefix = codes "/scanners/trigger/"

abbrev pub api_routes : List (Text × Endpoint)
api_routes =
    register (codes "/health") health
    ++ register (codes "/status") status
    ++ register (codes "/scanners") scanners
    ++ register trigger_prefix trigger
    ++ register (codes "/results/latest") latest
    ++ register (codes "/results/history") history
    ++ register (codes "/findings") findings
    ++ register (codes "/baselines") baselines
    ++ register (codes "/export/results") export_results
    ++ register (codes "/export/baselines") export_baselines
    ++ register (codes "/signatures/status") signatures_status
    ++ register (codes "/signatures/update") signatures_update
    ++ register (codes "/metrics") metrics

abbrev has_pattern : Text → List (Text × Endpoint) → Bool
has_pattern pattern [] = false
has_pattern pattern ((p, e) ∷ entries) = text_eq p pattern || has_pattern pattern entries

abbrev pub contains : Text → List Text → Bool
contains name [] = false
contains name (p ∷ plugins) = text_eq p name || contains name plugins

-- Go's packages: `quote` is the verb `%q` of fmt, and `json_string` the form that encoding/json
-- gives a string.
pub record Encoding : Type 0 where
  pub quote : Text → Text
  pub json_string : Text → Text

-- The message for a name that is not registered.
abbrev pub not_found : Encoding → Text → Text
not_found enc name = codes "plugin " ++ (enc.quote name ++ codes " not found")

-- `writeJSON` of `map[string]string{"error": message}`
abbrev pub error_response : Encoding → Text → Response
error_response enc message =
    response 400 (codes "{\"error\":" ++ (enc.json_string message ++ codes "}\n"))

module _ (enc : Encoding) (plugins : List Text) (run : Text → Result Text) where
  -- `RunOnce`: the plugin of that name runs once, or the name is not registered.
  unfoldable pub run_once : Text → Result Text
  unfolding text_eq
  run_once name = if contains name plugins then run name else err (not_found enc name)

  abbrev pub answer_run : Result Text → Response
  answer_run (ok result) = response 200 result
  answer_run (err message) = error_response enc message

  unfoldable pub handle_trigger : Request → Response
  handle_trigger r =
      let name = trim_prefix r.path trigger_prefix in
      if is_empty name
      then error_response enc (codes "scanner name required")
      else answer_run (run_once name)

  module _ (auth_token : Text) (answer : Endpoint → Request → Response) where
    unfoldable pub serve : Endpoint → Request → Response
    serve trigger r = handle_trigger r
    serve e r = answer e r

    -- Without a pattern for a path, Go redirects to the path below which there is one.
    abbrev pub dispatch : Option (Text × Endpoint) → Request → Response
    dispatch none r =
        if has_pattern (r.path ++ codes "/") api_routes
        then response 301 []
        else response 404 (codes "404 page not found\n")
    dispatch (some (pattern, e)) r = with_auth auth_token (serve e) r

    -- The API server's handler.
    unfoldable pub api_handler : Request → Response
    unfolding text_eq
    api_handler r =
        if is_clean r.path then dispatch (lookup_pattern r.path api_routes) r else response 301 []
