-- ===== src/Examples/Alerting.antt =====
-- The alerting engine with its defaults.
use ar_csent.Prelude.{
  ℕ, zero, suc, ◌≡◌, ◌↔◌, refl, Bool, true, Option, none, some, List, [], ◌∷◌, ℤ, pos, ltb, arith,
  length, String, All, ◌≢◌,
}
use ar_csent.Text.{Text, codes, text_eq}
use ar_csent.Dict.{get}
use ar_csent.Alerting.{Alert, Config, Engine, new_engine, prepare, send, deliver_to, is_throttled}
use ar_csent.Alerting.Steps.{World, submit, here, next, submitted, waited}
use ar_csent.Alerting.Throttling.{IsThrottling, Reach-IsThrottling, send_dropped}
use ar_csent.Api.{ok}
use ar_csent.Alerting.Channels.{
  ChannelConfig, Channel, webhook, Outside, build_channels, deliver, severity_allowed,
  parse_severity,
}
use ar_csent.Alerting.Reached.{succeeds, Valid, build_channels-Valid, deliver-filter}
use ar_csent.Examples.Results.{finding}

abbrev pub config : Config
config = record {
  enabled = true;
  dedup_window = codes "1us";
  retry_max = pos 2;
  retry_backoff = [];
}

-- A stand-in for the parsing of durations.
abbrev pub parse_duration : Text → Option ℤ
parse_duration t = some (pos 1000)

-- A stand-in for the hash.
abbrev hash : Text → Text
hash t = t

abbrev alert : Alert Unit
alert = record {
  id = [];
  timestamp = none;
  severity = codes "high";
  scanner_name = codes "disk";
  finding = finding;
  reason = codes "rule";
}

abbrev engine : Engine Unit
engine = new_engine parse_duration config

abbrev twice : World Unit
twice =
    submit hash alert
      (record (submit hash alert (record { engine = engine; now = 5; passed = [] })) { now = 1005 })

Reach-IsThrottling_example : IsThrottling twice
Reach-IsThrottling_example =
    Reach-IsThrottling hash parse_duration config 5
      (next (next (next here (submitted alert)) (waited 1000)) (submitted alert))

-- Two alerts at 5 and 1005 pass with a window of 1000, and one at 1004 does not.
windows :
    (length twice.engine.queue ≡ 2)
    × (is_throttled 1004 (prepare hash 5 alert).id (send hash 5 alert engine) ≡ true)
unfolding new_engine send get text_eq
windows = (refl, refl)

abbrev copies : ℕ → List (Alert Unit)
copies zero = []
copies (suc n) = alert ∷ copies n

abbrev full : Engine Unit
full = record {
  throttle = 1000;
  retry_max = 2;
  retry_backoff = 0;
  enabled = true;
  last_seen = [];
  queue = copies 256;
}

abbrev emptied : Engine Unit
emptied = record {
  throttle = 1000;
  retry_max = 2;
  retry_backoff = 0;
  enabled = true;
  last_seen = (send hash 5 alert full).last_seen;
  queue = [];
}

send_dropped_example :
    ((send hash 5 alert full).queue ≡ full.queue) × (send hash 900 alert emptied ≡ emptied)
unfolding is_throttled get
send_dropped_example =
    send_dropped hash alert alert full emptied 5 900 refl refl refl refl refl refl (omega arith)
      (omega arith)

-- The first two attempts fail.
abbrev fails : ℕ → Bool
fails attempt = ltb attempt 2

attempts : deliver_to fails 1000 2 ≡ record { attempts = 3; slept = 3000; delivered = true }
unfolding deliver_to
attempts = refl

abbrev channel : String → String → List Text → ChannelConfig
channel type url severity = record {
  enabled = true;
  type = codes type;
  url = codes url;
  severity = severity;
  syslog_network = [];
  syslog_address = [];
  syslog_tag = [];
  smtp_server = [];
  smtp_user = [];
  smtp_pass = [];
  from = [];
  to = [];
  subject = [];
}

abbrev channels : List ChannelConfig
channels =
    channel "webhook" "http://a" (codes "high" ∷ [])
    ∷ channel "webhook" "http://b" (codes "low" ∷ [])
    ∷ []

-- A world of what was sent: the URL of each request.
abbrev outside : Outside (List Text) Unit Unit
outside = record {
  warn = λ alert w. codes "log" ∷ w;
  marshal = λ alert. ok [];
  request = λ url. ok tt;
  post = λ url payload w. (ok 200, url ∷ w);
  dial = λ network address tag. some tt;
  write = λ writer level text w. (none, text ∷ w);
  send_mail = λ server auth from to text w. (none, text ∷ w);
  sleep = λ time w. w;
}

abbrev two_hooks : List (Channel Unit)
two_hooks =
    webhook (codes "http://a") (codes "high" ∷ [])
    ∷ webhook (codes "http://b") (codes "low" ∷ [])
    ∷ []

abbrev high_alert : Alert Unit
high_alert = record alert { severity = codes "high" }

build_channels-Valid_example :
    ((succeeds (build_channels outside channels) ≡ true)
      ↔ All (λ ch. ch.enabled ≡ true → Valid ch) channels)
    × ((built : List (Channel Unit)) → build_channels outside channels ≡ ok built → built ≢ [])
build_channels-Valid_example = build_channels-Valid outside channels

deliver-filter_example :
    deliver outside (λ s. s) engine high_alert two_hooks []
    ≡ deliver outside
        (λ s. s)
        engine
        high_alert
        (webhook (codes "http://a") (codes "high" ∷ []) ∷ [])
        []
unfolding severity_allowed parse_severity text_eq
deliver-filter_example = deliver-filter outside (λ s. s) engine high_alert two_hooks []

sent_once : deliver outside (λ s. s) engine high_alert two_hooks [] ≡ codes "http://a" ∷ []
unfolding deliver severity_allowed parse_severity text_eq
sent_once = refl
