-- ===== src/Examples/Config.antt =====
-- A configuration that the validation accepts.
use ar_csent.Prelude.{◌≡◌, ◌≢◌, ◌⊎◌, refl, true, false, some, [], ◌∷◌, pos}
use ar_csent.Text.{codes, text_eq}
use ar_csent.Config.Types.{Config, ScannerConfig}
use ar_csent.Config.{Environment, validate}
use ar_csent.Config.Access.{validate-guards}
use ar_csent.Server.Http.{Request, Response, response, request_token}
use ar_csent.Server.Mux.{is_clean, lookup_pattern}
use ar_csent.Server.Trigger.{Endpoint, serve, api_handler}
use ar_csent.Server.Ui.{IsProxied, ui_handler}
use ar_csent.Examples.Daemon.{enc, plugins, run, pages}
use ar_csent.Examples.Data.{token}

-- Stand-ins for Go's packages.
abbrev environment : Environment
environment = record {
  is_duration = λ t. text_eq t (codes "5m");
  base64_length = λ t. some 32;
  is_absolute = λ t. text_eq t (codes "/var/lib/arcsent");
  lower = λ t. t;
  is_root = false;
}

abbrev disk : ScannerConfig
disk = record {
  name = codes "disk";
  plugin = codes "system.disk_usage";
  enabled = true;
  schedule = codes "whenever";
  timeout = codes "5m";
  retry_backoff = [];
  retry_max = [];
}

abbrev config : Config
config = record {
  daemon = record {
    log_level = codes "info";
    log_format = codes "json";
    user = [];
    group = [];
    shutdown_timeout = [];
    drop_privileges = true;
  };
  storage = record {
    db_path = codes "/var/lib/arcsent";
    retention_days = pos 30;
    encryption_key_base64 = codes "AAAA";
  };
  signatures = record {
    enabled = true;
    update_interval = codes "5m";
    sources = codes "nvd" ∷ codes "custom:own" ∷ [];
    cache_dir = codes "/var/lib/arcsent";
    airgap_import_path = [];
    source_urls = (codes "nvd", codes "https://nvd.example") ∷ [];
  };
  api = record { enabled = true; bind_addr = codes "127.0.0.1:8788"; auth_token = token };
  web_ui = record { enabled = true; bind_addr = codes "127.0.0.1:8787"; auth_token = token };
  scanners = disk ∷ [];
  detection = record {
    correlation_window = codes "5m";
    correlation_min_scanners = pos 2;
    correlation_cooldown = [];
    drift_consecutive = pos 3;
    rules =
        record {
          name = codes "load";
          scanner = codes "*";
          metric = codes "load1";
          operator = codes "gt";
        }
        ∷ [];
  };
  alerting = record {
    dedup_window = codes "5m";
    retry_max = pos 2;
    retry_backoff = [];
    channel_types = codes "log" ∷ [];
  };
  security = record { self_integrity = false; expected_sha256 = [] };
}

abbrev ask : Request
ask = record {
  method = codes "GET";
  path = codes "/api/health";
  authorization = token;
  query_token = [];
}

ask-IsProxied : IsProxied ask
unfolding is_clean
ask-IsProxied = record { rest = codes "health"; below = refl; clean = refl }

abbrev pong : Endpoint → Request → Response
pong e r = response 200 (codes "pong")

abbrev guarded : Request → Response
guarded = ui_handler pages token (some (api_handler enc plugins run token pong))

validate-guards_example :
    ((request_token ask ≡ token)
      → (request_token ask ≡ token)
      → guarded ask ≡ response 200 (codes "pong"))
    × (((request_token ask ≢ token) ⊎ (request_token ask ≢ token)) → guarded ask ≡ response 401 [])
unfolding validate lookup_pattern serve
validate-guards_example =
    validate-guards environment config enc plugins run pages pong ask (codes "/api/health")
      Endpoint.health refl refl refl ask-IsProxied refl

-- Two errors of a scanner, with its position.
two_errors :
    validate environment
      (record config { scanners = disk ∷ record disk { plugin = []; timeout = codes "5x" } ∷ [] })
    ≡ codes "scanners[1].plugin is required"
      ∷ codes "scanners[1].timeout must be a valid duration"
      ∷ []
unfolding validate
two_errors = refl
