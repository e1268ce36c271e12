-- ===== src/Config/Types.antt =====
-- internal/config/config.go: the configuration, as far as its validation reads it.
use ar_csent.Prelude.{Bool, List, ℤ}
use ar_csent.Text.{Text}
use ar_csent.Dict.{Dict}

pub record DaemonConfig : Type 0 where
  pub log_level : Text
  pub log_format : Text
  pub user : Text
  pub group : Text
  pub shutdown_timeout : Text
  pub drop_privileges : Bool

pub record StorageConfig : Type 0 where
  pub db_path : Text
  pub retention_days : ℤ
  pub encryption_key_base64 : Text

pub record SignaturesConfig : Type 0 where
  pub enabled : Bool
  pub update_interval : Text
  pub sources : List Text
  pub cache_dir : Text
  pub airgap_import_path : Text
  pub source_urls : Dict Text

-- `WebUIConfig` and `APIConfig`
pub record ServerConfig : Type 0 where
  pub enabled : Bool
  pub bind_addr : Text
  pub auth_token : Text

pub record ScannerConfig : Type 0 where
  pub name : Text
  pub plugin : Text
  pub enabled : Bool
  pub schedule : Text
  pub timeout : Text
  pub retry_backoff : Text
  pub retry_max : Text

pub record RuleConfig : Type 0 where
  pub name : Text
  pub scanner : Text
  pub metric : Text
  pub operator : Text

pub record DetectionConfig : Type 0 where
  pub correlation_window : Text
  pub correlation_min_scanners : ℤ
  pub correlation_cooldown : Text
  pub drift_consecutive : ℤ
  pub rules : List RuleConfig

-- Of the channels only the types are read.
pub record AlertingConfig : Type 0 where
  pub dedup_window : Text
  pub retry_max : ℤ
  pub retry_backoff : Text
  pub channel_types : List Text

pub record SecurityConfig : Type 0 where
  pub self_integrity : Bool
  pub expected_sha256 : Text

pub record Config : Type 0 where
  pub daemon : DaemonConfig
  pub storage : StorageConfig
  pub signatures : SignaturesConfig
  pub api : ServerConfig
  pub web_ui : ServerConfig
  pub scanners : List ScannerConfig
  pub detection : DetectionConfig
  pub alerting : AlertingConfig
  pub security : SecurityConfig
