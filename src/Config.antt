-- ===== src/Config.antt =====
-- internal/config/config.go: `Validate`, with the known sources of
-- internal/signatures/registry.go.
pub mod Types
pub mod Access
use ar_csent.Prelude.{
  ℕ, suc, Bool, true, false, not, ◌&&◌, ◌||◌, Option, none, some, List, [], ◌∷◌, ◌++◌, flat_map,
  is_empty, ◌==◌, if◌then◌else◌, ℤ, pos, negsuc,
}
use ar_csent.Text.{Text, codes, text_eq}
use ar_csent.Dict.{Dict}
use ar_csent.Config.Types.{
  DaemonConfig, StorageConfig, SignaturesConfig, ServerConfig, ScannerConfig, RuleConfig,
  DetectionConfig, AlertingConfig, SecurityConfig, Config,
}
use ar_csent.GoStrings.{trim_space, drop_prefix}
use ar_csent.Number.Print.{show_nat}

-- Go's packages and the process: whether a text is a duration, how many bytes a text in base 64
-- stands for, whether a path is absolute, `strings.ToLower`, and whether the user is root.
pub record Environment : Type 0 where
  pub is_duration : Text → Bool
  pub base64_length : Text → Option ℕ
  pub is_absolute : Text → Bool
  pub lower : Text → Text
  pub is_root : Bool

-- An error where a test fails.
abbrev pub unless : Bool → Text → List Text
unless ok message = if ok then [] else message ∷ []

abbrev given : Text → Bool
given t = not (is_empty t)

abbrev is_some {ℓ} : {A : Type ℓ} → Option A → Bool
is_some none = false
is_some (some a) = true

abbrev one_of : Text → List Text → Bool
one_of t [] = false
one_of t (x ∷ xs) = text_eq t x || one_of t xs

abbrev at_least_zero : ℤ → Bool
at_least_zero (pos n) = true
at_least_zero (negsuc n) = false

abbrev at_least_one : ℤ → Bool
at_least_one (pos n) = not (n == 0)
at_least_one (negsuc n) = false

-- `IsKnownSource`, or a source that is named "custom:" and more.
abbrev is_source : Text → Bool
is_source id =
    one_of id (
      codes "mitre_attack"
      ∷ codes "mitre_capec"
      ∷ codes "mitre_cwe"
      ∷ codes "nvd"
      ∷ codes "osv"
      ∷ codes "cisa_kev"
      ∷ codes "exploit_db"
      ∷ codes "epss"
      ∷ codes "ghsa"
      ∷ [])
    || is_some (drop_prefix id (codes "custom:"))

-- `list[i].rest`
abbrev item : Text → ℕ → Text → Text
item list i rest = list ++ (codes "[" ++ (show_nat i ++ (codes "]." ++ rest)))

module _ (env : Environment) where
  -- A duration, where it is given.
  abbrev duration : Text → Text → List Text
  duration t message = unless (is_empty t || env.is_duration t) message

  abbrev validate_daemon : DaemonConfig → List Text
  validate_daemon d =
      unless
        (one_of (env.lower d.log_level)
          (codes "debug" ∷ codes "info" ∷ codes "warn" ∷ codes "error" ∷ []))
        (codes "daemon.log_level must be one of: debug, info, warn, error")
      ++ (unless (one_of (env.lower d.log_format) (codes "json" ∷ codes "text" ∷ []))
            (codes "daemon.log_format must be one of: json, text")
          ++ (duration d.shutdown_timeout
                (codes "daemon.shutdown_timeout must be a valid duration (e.g. 10s)")
              ++ unless
                  (not
                    (d.drop_privileges && (env.is_root && (is_empty d.user || is_empty d.group))))
                  (codes "daemon.user and daemon.group are required when drop_privileges is true")))

  abbrev key_length : Option ℕ → List Text
  key_length none = codes "storage.encryption_key_base64 must be valid base64" ∷ []
  key_length (some n) =
      unless (n == 32) (codes "storage.encryption_key_base64 must decode to 32 bytes")

  abbrev validate_storage : StorageConfig → List Text
  validate_storage s =
      (if is_empty s.db_path
        then codes "storage.db_path is required" ∷ []
        else unless (env.is_absolute s.db_path) (codes "storage.db_path must be an absolute path"))
      ++ (unless (at_least_zero s.retention_days) (codes "storage.retention_days must be >= 0")
          ++ (if is_empty s.encryption_key_base64
              then []
              else key_length (env.base64_length s.encryption_key_base64)))

  abbrev validate_url : Text × Text → List Text
  validate_url (src, url) =
      unless (is_source src) (codes "signatures.source_urls contains unknown source: " ++ src)
      ++ unless (given (trim_space url))
          (codes "signatures.source_urls contains empty URL for " ++ src)

  abbrev validate_enabled : SignaturesConfig → List Text
  validate_enabled s =
      (if is_empty s.update_interval
        then codes "signatures.update_interval is required when enabled" ∷ []
        else unless (env.is_duration s.update_interval)
            (codes "signatures.update_interval must be a valid duration (e.g. 24h)"))
      ++ (unless (not (is_empty s.sources))
            (codes "signatures.sources must include at least one source when enabled")
          ++ (flat_map
                (λ src.
                  unless (is_source src)
                    (codes "signatures.sources contains unknown source: " ++ src))
                s.sources
              ++ (flat_map validate_url s.source_urls
                  ++ (if is_empty s.cache_dir
                      then codes "signatures.cache_dir is required when enabled" ∷ []
                      else unless (env.is_absolute s.cache_dir)
                          (codes "signatures.cache_dir must be an absolute path")))))

  abbrev validate_signatures : SignaturesConfig → List Text
  validate_signatures s =
      (if s.enabled then validate_enabled s else [])
      ++ unless (is_empty s.airgap_import_path || env.is_absolute s.airgap_import_path)
          (codes "signatures.airgap_import_path must be an absolute path if set")

  -- The argument is "web_ui" or "api".
  abbrev validate_server : Text → ServerConfig → List Text
  validate_server name s =
      if s.enabled
      then unless (given s.bind_addr) (name ++ codes ".bind_addr is required when enabled")
        ++ unless (given s.auth_token) (name ++ codes ".auth_token is required when enabled")
      else []

  abbrev validate_scanner : ℕ → ScannerConfig → List Text
  validate_scanner i sc =
      let named = item (codes "scanners") i in
      unless (given sc.name) (named (codes "name is required"))
      ++ (unless (given sc.plugin) (named (codes "plugin is required"))
          ++ (unless (not (sc.enabled && is_empty sc.schedule))
                (named (codes "schedule is required when enabled"))
              ++ (duration sc.timeout (named (codes "timeout must be a valid duration"))
                  ++ (duration sc.retry_backoff
                        (named (codes "retry_backoff must be a valid duration"))
                      ++ duration sc.retry_max
                          (named (codes "retry_max must be a valid duration"))))))

  abbrev validate_scanners : ℕ → List ScannerConfig → List Text
  validate_scanners i [] = []
  validate_scanners i (sc ∷ scanners) = validate_scanner i sc ++ validate_scanners (suc i) scanners

  abbrev validate_rule : ℕ → RuleConfig → List Text
  validate_rule i rule =
      let named = item (codes "detection.rules") i in
      unless (given rule.name) (named (codes "name is required"))
      ++ (unless (given rule.scanner) (named (codes "scanner is required"))
          ++ (unless (given rule.metric) (named (codes "metric is required"))
              ++ unless
                  (one_of (env.lower rule.operator)
                    (codes "gt" ∷ codes "gte" ∷ codes "lt" ∷ codes "lte" ∷ codes "eq" ∷ []))
                  (named (codes "operator must be one of gt,gte,lt,lte,eq"))))

  abbrev validate_rules : ℕ → List RuleConfig → List Text
  validate_rules i [] = []
  validate_rules i (rule ∷ rules) = validate_rule i rule ++ validate_rules (suc i) rules

  abbrev validate_detection : DetectionConfig → List Text
  validate_detection d =
      duration d.correlation_window (codes "detection.correlation_window must be a valid duration")
      ++ (duration d.correlation_cooldown
            (codes "detection.correlation_cooldown must be a valid duration")
          ++ (unless (at_least_one d.correlation_min_scanners)
                (codes "detection.correlation_min_scanners must be >= 1")
              ++ (unless (at_least_one d.drift_consecutive)
                    (codes "detection.drift_consecutive must be >= 1")
                  ++ validate_rules 0 d.rules)))

  abbrev validate_channels : ℕ → List Text → List Text
  validate_channels i [] = []
  validate_channels i (type ∷ types) =
      unless (given type) (item (codes "alerting.channels") i (codes "type is required"))
      ++ validate_channels (suc i) types

  abbrev validate_alerting : AlertingConfig → List Text
  validate_alerting a =
      duration a.dedup_window (codes "alerting.dedup_window must be a valid duration")
      ++ (duration a.retry_backoff (codes "alerting.retry_backoff must be a valid duration")
          ++ (unless (at_least_zero a.retry_max) (codes "alerting.retry_max must be >= 0")
              ++ validate_channels 0 a.channel_types))

  abbrev validate_security : SecurityConfig → List Text
  validate_security s =
      unless (not (s.self_integrity && is_empty s.expected_sha256))
        (codes "security.expected_sha256 is required when self_integrity is enabled")

  -- `Validate`: its errors, before they are joined; with none the configuration is accepted.
  unfoldable pub validate : Config → List Text
  unfolding trim_space drop_prefix text_eq show_nat
  validate c =
      validate_daemon c.daemon
      ++ (validate_storage c.storage
          ++ (validate_signatures c.signatures
              ++ (validate_server (codes "web_ui") c.web_ui
                  ++ (validate_server (codes "api") c.api
                      ++ (validate_scanners 0 c.scanners
                          ++ (validate_detection c.detection
                              ++ (validate_alerting c.alerting
                                  ++ validate_security c.security)))))))
