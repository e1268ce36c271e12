-- ===== src/Alerting.antt =====
-- internal/alerting/engine.go: the engine that throttles, queues and delivers alerts. Times and
-- durations are in nanoseconds on a clock that does not go back; the clock's reading is an argument.
-- SHA-256 in hexadecimal is the argument `hash`, `time.ParseDuration` the argument `parse_duration`.
-- A window or a backoff below 0 is kept as 0: it neither throttles nor sleeps.
pub mod Steps
pub mod Throttling
pub mod Delivery
pub mod Channels
pub mod Reached
use ar_csent.Prelude.{
  ℕ, zero, suc, ◌+◌, ◌-◌, ◌*◌, ◌%◌, ◌^◌, Bool, true, false, not, ◌&&◌, Option, none, some, List, [],
  ◌∷◌, ◌++◌, length, ltb, is_empty, if◌then◌else◌, ℤ, pos, negsuc,
}
use ar_csent.Text.{Text, codes}
use ar_csent.Dict.{Dict, get, set}
use ar_csent.Results.{Finding}

-- `timestamp` is `none` for Go's zero time.
pub record Alert (J : Type 0) : Type 0 where
  pub id : Text
  pub timestamp : Option ℕ
  pub severity : Text
  pub scanner_name : Text
  pub finding : Finding J
  pub reason : Text

pub record Config : Type 0 where
  pub enabled : Bool
  pub dedup_window : Text
  pub retry_max : ℤ
  pub retry_backoff : Text

pub record Engine (J : Type 0) : Type 0 where
  pub throttle : ℕ
  pub retry_max : ℕ
  pub retry_backoff : ℕ
  pub enabled : Bool
  pub last_seen : Dict ℕ
  pub queue : List (Alert J)

abbrev at_least_zero : ℤ → ℕ
at_least_zero (pos n) = n
at_least_zero (negsuc n) = 0

abbrev duration_or : Option ℤ → ℕ → ℕ
duration_or none default = default
duration_or (some d) default = at_least_zero d

abbrev configured : (Text → Option ℤ) → Text → ℕ → ℕ
configured parse_duration text default =
    if is_empty text then default else duration_or (parse_duration text) default

abbrev pub queue_size : ℕ
queue_size = 256

abbrev timestamp_or : ℕ → Option ℕ → Option ℕ
timestamp_or now none = some now
timestamp_or now (some t) = some t

abbrev pub within : ℕ → ℕ → Option ℕ → Bool
within throttle now none = false
within throttle now (some last) = ltb (now - last) throttle

module _ {J : Type 0} where
  -- `New`: five minutes and two seconds where the configuration has no duration.
  unfoldable pub new_engine : (Text → Option ℤ) → Config → Engine J
  new_engine parse_duration cfg = record {
    throttle = configured parse_duration cfg.dedup_window 300000000000;
    retry_max = at_least_zero cfg.retry_max;
    retry_backoff = configured parse_duration cfg.retry_backoff 2000000000;
    enabled = cfg.enabled;
    last_seen = [];
    queue = [];
  }

  abbrev fingerprint : (Text → Text) → Alert J → Text
  fingerprint hash alert = hash (
      alert.scanner_name
      ++ (codes "|"
          ++ (alert.severity
              ++ (codes "|" ++ (alert.finding.id ++ (codes "|" ++ alert.finding.description))))))

  -- The alert with its identifier and its time filled in.
  abbrev pub prepare : (Text → Text) → ℕ → Alert J → Alert J
  prepare hash now alert = record {
    id = if is_empty alert.id then fingerprint hash alert else alert.id;
    timestamp = timestamp_or now alert.timestamp;
    severity = alert.severity;
    scanner_name = alert.scanner_name;
    finding = alert.finding;
    reason = alert.reason;
  }

  -- `isThrottled`: the answer, and the engine after a call that answers `false`.
  unfoldable pub is_throttled : ℕ → Text → Engine J → Bool
  unfolding get
  is_throttled now id e = within e.throttle now (get id e.last_seen)

  unfoldable pub mark_seen : ℕ → Text → Engine J → Engine J
  unfolding set
  mark_seen now id e = record e { last_seen = set id now e.last_seen }

  -- The `select` on the queue: an alert that finds it full is dropped.
  unfoldable pub enqueue : Alert J → Engine J → Engine J
  enqueue alert e =
      if ltb (length e.queue) queue_size then record e { queue = e.queue ++ alert ∷ [] } else e

  unfoldable pub send_prepared : ℕ → Alert J → Engine J → Engine J
  unfolding is_throttled mark_seen enqueue
  send_prepared now alert e =
      if is_throttled now alert.id e then e else enqueue alert (mark_seen now alert.id e)

  unfoldable pub send : (Text → Text) → ℕ → Alert J → Engine J → Engine J
  unfolding send_prepared
  send hash now alert e = if e.enabled then send_prepared now (prepare hash now alert) e else e

-- What the attempts at one channel come to.
pub record Outcome : Type 0 where
  pub attempts : ℕ
  pub slept : ℕ
  pub delivered : Bool

-- `time.Sleep(e.retryBackoff * time.Duration(1<<attempt))` on 64-bit integers: a product that
-- overflows into a negative one sleeps not at all.
unfoldable pub sleep_time : ℕ → ℕ → ℕ
sleep_time backoff attempt =
    let d = (backoff * 2 ^ attempt) % 2 ^ 64 in if ltb d (2 ^ 63) then d else 0

-- The loop from an attempt on, with so many attempts left; `fails` tells of each attempt whether the
-- channel's `Send` returns an error.
unfoldable pub deliver_from : (ℕ → Bool) → ℕ → ℕ → ℕ → Outcome
unfolding sleep_time
deliver_from fails backoff zero attempt = record { attempts = 0; slept = 0; delivered = false }
deliver_from fails backoff (suc left) attempt =
    let rest = deliver_from fails backoff left (suc attempt) in
    if fails attempt
    then record {
      attempts = suc rest.attempts;
      slept = sleep_time backoff attempt + rest.slept;
      delivered = rest.delivered;
    }
    else record { attempts = 1; slept = 0; delivered = true }

-- The loop over the attempts 0 to `retryMax`, for one channel of `deliver`.
unfoldable pub deliver_to : (ℕ → Bool) → ℕ → ℕ → Outcome
unfolding deliver_from
deliver_to fails backoff retry_max = deliver_from fails backoff (suc retry_max) 0
