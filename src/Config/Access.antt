-- ===== src/Config/Access.antt =====
-- internal/config/config.go with the two servers: what a validated configuration protects.
use ar_csent.Prelude.{
  ℕ, suc, ◌≡◌, ◌≢◌, ◌⊎◌, refl, ap, true, some, List, [], ◌∷◌, ◌++◌, is_empty, arith,
}
use ar_csent.Text.{Text, codes}
use ar_csent.Config.Types.{Config, ServerConfig, ScannerConfig}
use ar_csent.Config.{
  Environment, unless, given, validate, validate_daemon, validate_storage, validate_signatures,
  validate_server, validate_scanner, validate_scanners, validate_detection, validate_alerting,
  validate_security,
}
use ar_csent.Api.{Result}
use ar_csent.Server.Http.{Request, Response, response, request_token}
use ar_csent.Server.Mux.{lookup_pattern}
use ar_csent.Server.Trigger.{Endpoint, Encoding, api_routes, serve, api_handler}
use ar_csent.Server.Ui.{Pages, IsProxied, ui_handler}
use ar_csent.Server.Auth.{ui_handler-api_handler}

append-nil-left {ℓ} : {A : Type ℓ} (xs ys : List A) → xs ++ ys ≡ [] → xs ≡ []
append-nil-left [] ys h = refl
append-nil-left (x ∷ xs) ys h = absurd (cc)

append-nil-right {ℓ} : {A : Type ℓ} (xs ys : List A) → xs ++ ys ≡ [] → ys ≡ []
append-nil-right [] ys h = h
append-nil-right (x ∷ xs) ys h = absurd (cc)

module _ (env : Environment) where
  auth_token-validate_server :
      (name : Text) (s : ServerConfig)
      → s.enabled ≡ true
      → validate_server env name s ≡ []
      → s.auth_token ≢ []
  auth_token-validate_server name s on h empty =
      let e = append-nil-right (unless (given s.bind_addr) _) _ (rw on at h) in
      absurd (ground arith)

  servers-validate :
      (c : Config)
      → validate env c ≡ []
      → (validate_server env (codes "web_ui") c.web_ui ≡ [])
        × (validate_server env (codes "api") c.api ≡ [])
  unfolding validate
  servers-validate c h =
      let rest = append-nil-right (validate_signatures env c.signatures) _ (
        append-nil-right (validate_storage env c.storage) _
          (append-nil-right (validate_daemon env c.daemon) _ h)) in
      let next = append-nil-right (validate_server env (codes "web_ui") c.web_ui) _ rest in
      (append-nil-left _ _ rest, append-nil-left (validate_server env (codes "api") c.api) _ next)

  -- If the validation accepts a configuration that enables both servers, a request through the web UI
  -- for a clean path below /api/ that is one of the API's routes gets the answer of that route's
  -- handler if its token is that of both servers, and 401 if it is not.
  pub validate-guards :
      (c : Config) (enc : Encoding) (plugins : List Text) (run : Text → Result Text) (pages : Pages)
      (answer : Endpoint → Request → Response) (r : Request) (pattern : Text) (e : Endpoint)
      → validate env c ≡ []
      → c.web_ui.enabled ≡ true
      → c.api.enabled ≡ true
      → IsProxied r
      → lookup_pattern r.path api_routes ≡ some (pattern, e)
      → ((request_token r ≡ c.web_ui.auth_token)
          → (request_token r ≡ c.api.auth_token)
          → ui_handler pages c.web_ui.auth_token
              (some (api_handler enc plugins run c.api.auth_token answer))
              r
            ≡ serve enc plugins run c.api.auth_token answer e r)
        × (((request_token r ≢ c.web_ui.auth_token) ⊎ (request_token r ≢ c.api.auth_token))
            → ui_handler pages c.web_ui.auth_token
                (some (api_handler enc plugins run c.api.auth_token answer))
                r
              ≡ response 401 [])
  validate-guards c enc plugins run pages answer r pattern e accepted ui_on api_on proxied found =
      let servers = servers-validate c accepted in
      ui_handler-api_handler enc plugins run pages c.web_ui.auth_token c.api.auth_token answer r
        pattern e (auth_token-validate_server (codes "web_ui") c.web_ui ui_on servers.0)
        (auth_token-validate_server (codes "api") c.api api_on servers.1) proxied found

  validate_scanner-schedule :
      (i : ℕ) (sc : ScannerConfig) (schedule : Text)
      → is_empty sc.schedule ≡ is_empty schedule
      → validate_scanner env i (record sc { schedule = schedule }) ≡ validate_scanner env i sc
  validate_scanner-schedule i sc schedule same = rw same refl

  validate_scanners-schedule :
      (i : ℕ) (before after : List ScannerConfig) (sc : ScannerConfig) (schedule : Text)
      → is_empty sc.schedule ≡ is_empty schedule
      → validate_scanners env i (before ++ record sc { schedule = schedule } ∷ after)
        ≡ validate_scanners env i (before ++ sc ∷ after)
  validate_scanners-schedule i [] after sc schedule same =
      ap (λ e. e ++ validate_scanners env (suc i) after)
        (validate_scanner-schedule i sc schedule same)
  validate_scanners-schedule i (s ∷ before) after sc schedule same =
      ap (λ e. validate_scanner env i s ++ e)
        (validate_scanners-schedule (suc i) before after sc schedule same)

  -- The validation does not look at a schedule: any one that is given may stand for any other.
  pub validate-schedule :
      (c : Config) (before after : List ScannerConfig) (sc : ScannerConfig) (schedule : Text)
      → is_empty sc.schedule ≡ is_empty schedule
      → validate env (record c { scanners = before ++ record sc { schedule = schedule } ∷ after })
        ≡ validate env (record c { scanners = before ++ sc ∷ after })
  unfolding validate
  validate-schedule c before after sc schedule same =
      ap
        (λ e.
          validate_daemon env c.daemon
          ++ (validate_storage env c.storage
              ++ (validate_signatures env c.signatures
                  ++ (validate_server env (codes "web_ui") c.web_ui
                      ++ (validate_server env (codes "api") c.api
                          ++ (e
                              ++ (validate_detection env c.detection
                                  ++ (validate_alerting env c.alerting
                                      ++ validate_security env c.security))))))))
        (validate_scanners-schedule 0 before after sc schedule same)
