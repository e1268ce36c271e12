-- ===== src/Alerting/Channels.antt =====
-- internal/alerting: the channels that a configuration asks for (factory.go), what each does with an
-- alert (log_channel.go, webhook_channel.go, syslog_channel.go, email_channel.go), and `deliver` of
-- engine.go over all of them. encoding/json, net/http, log/syslog, net/smtp and the logger are the
-- record `Outside`; `strings.ToLower` is the argument `lower`.
use ar_csent.Prelude.{
  ℕ, zero, suc, Bool, true, false, not, ◌&&◌, ◌||◌, Option, none, some, List, [], ◌∷◌, ◌++◌, leb,
  is_empty, if◌then◌else◌, String,
}
use ar_csent.Text.{Text, codes, text_eq, split_char}
use ar_csent.Api.{Result, ok, err, ◌>>=◌}
use ar_csent.Number.Print.{show_nat}
use ar_csent.Alerting.{Alert, Engine, sleep_time}

pub record ChannelConfig : Type 0 where
  pub enabled : Bool
  pub type : Text
  pub url : Text
  pub severity : List Text
  pub syslog_network : Text
  pub syslog_address : Text
  pub syslog_tag : Text
  pub smtp_server : Text
  pub smtp_user : Text
  pub smtp_pass : Text
  pub from : Text
  pub to : List Text
  pub subject : Text

pub record EmailConfig : Type 0 where
  pub smtp_server : Text
  pub smtp_user : Text
  pub smtp_pass : Text
  pub from : Text
  pub to : List Text
  pub subject : Text

-- A syslog channel has a writer, or none if it could not be opened.
pub data Channel (Writer : Type 0) : Type 0 where
  log : Channel Writer
  webhook : Text → List Text → Channel Writer
  syslog : Option Writer → List Text → Channel Writer
  email : EmailConfig → List Text → Channel Writer

pub data Level : Type 0 where
  error : Level
  warning : Level
  info : Level

-- An action that gives an error or none.
abbrev pub Attempt : Type 0 → Type 0
Attempt W = W → Option Text × W

-- A mail's sign-in: the user, the password and the host.
abbrev pub SignIn : Type 0
SignIn = Option (Text × Text × Text)

pub record Outside (W J Writer : Type 0) : Type 0 where
  pub warn : Alert J → W → W
  pub marshal : Alert J → Result Text
  pub request : Text → Result (Unit {0})
  pub post : Text → Text → W → Result ℕ × W
  pub dial : Text → Text → Text → Option Writer
  pub write : Writer → Level → Text → Attempt W
  pub send_mail : Text → SignIn → Text → List Text → Text → Attempt W
  pub sleep : ℕ → W → W

abbrev text_or : Text → String → Text
text_or text default = if is_empty text then codes default else text

module _ (lower : Text → Text) where
  abbrev one_of : Text → String → Bool
  one_of value name = text_eq (lower value) (codes name)

  unfoldable pub parse_severity : Text → Text
  parse_severity value =
      if one_of value "low"
      then codes "low"
      else if one_of value "medium"
      then codes "medium"
      else if one_of value "high"
      then codes "high"
      else if one_of value "critical"
      then codes "critical"
      else codes "info"

  abbrev any_severity : List Text → Text → Bool
  any_severity [] severity = false
  any_severity (v ∷ allow) severity =
      text_eq (parse_severity v) severity || any_severity allow severity

  unfoldable pub severity_allowed : List Text → Text → Bool
  unfolding parse_severity
  severity_allowed allow severity = is_empty allow || any_severity allow severity

abbrev joined_with : Text → List Text → Text
joined_with separator [] = []
joined_with separator (t ∷ []) = t
joined_with separator (t ∷ u ∷ texts) = t ++ separator ++ joined_with separator (u ∷ texts)

abbrev line_end : Text
line_end = 13 ∷ 10 ∷ []

abbrev first_of : List Text → Text
first_of [] = []
first_of (t ∷ texts) = t

module _ {W J Writer : Type 0} (out : Outside W J Writer) where
  abbrev email_config : ChannelConfig → EmailConfig
  email_config ch = record {
    smtp_server = ch.smtp_server;
    smtp_user = ch.smtp_user;
    smtp_pass = ch.smtp_pass;
    from = ch.from;
    to = ch.to;
    subject = ch.subject;
  }

  abbrev new_syslog : ChannelConfig → Channel Writer
  new_syslog ch =
      syslog
        (out.dial (text_or ch.syslog_network "unixgram") (text_or ch.syslog_address "/dev/log")
          (text_or ch.syslog_tag "arcsent"))
        ch.severity

  -- The `switch` on the type of a channel.
  unfoldable pub new_channel : ChannelConfig → Result (Channel Writer)
  new_channel ch =
      if text_eq ch.type (codes "log")
      then ok log
      else if text_eq ch.type (codes "webhook")
      then (if is_empty ch.url
          then err (codes "webhook url required")
          else ok (webhook ch.url ch.severity))
      else if text_eq ch.type (codes "syslog")
      then ok (new_syslog ch)
      else if text_eq ch.type (codes "email")
      then ok (email (email_config ch) ch.severity)
      else err (codes "unknown alert channel type: " ++ ch.type)

  -- The channels of the entries that are enabled, unless one cannot be made.
  unfoldable pub listed : List ChannelConfig → Result (List (Channel Writer))
  unfolding new_channel
  listed [] = ok []
  listed (ch ∷ rest) =
      let others = listed rest in
      if ch.enabled
      then (new_channel ch >>= λ channel. others >>= λ channels. ok (channel ∷ channels))
      else others

  abbrev pub or_log : List (Channel Writer) → List (Channel Writer)
  or_log [] = log ∷ []
  or_log (ch ∷ channels) = ch ∷ channels

  unfoldable pub build_channels : List ChannelConfig → Result (List (Channel Writer))
  unfolding listed
  build_channels cfgs = listed cfgs >>= λ channels. ok (or_log channels)

  abbrev answered : Result ℕ × W → Option Text × W
  answered (err text, w) = (some text, w)
  answered (ok status, w) =
      (if leb 300 status then some (codes "webhook status " ++ show_nat status) else none, w)

  -- The webhook's request, unless the alert or the URL is refused.
  abbrev posted : Text → Result Text → Result (Unit {0}) → Attempt W
  posted url (err text) built w = (some text, w)
  posted url (ok payload) (err text) w = (some text, w)
  posted url (ok payload) (ok built) w = answered (out.post url payload w)

  abbrev level_of : Text → Level
  level_of severity =
      if text_eq severity (codes "critical") || text_eq severity (codes "high")
      then error
      else if text_eq severity (codes "medium")
      then warning
      else info

  abbrev written : Option Writer → Alert J → Attempt W
  written none alert w = (some (codes "syslog writer not available"), w)
  written (some writer) alert w =
      out.write writer (level_of alert.severity)
        (codes "["
          ++ alert.severity
          ++ codes "] "
          ++ alert.scanner_name
          ++ codes " - "
          ++ alert.finding.description)
        w

  abbrev mail_body : Alert J → Text
  mail_body alert =
      codes "Severity: "
      ++ alert.severity
      ++ codes "\nScanner: "
      ++ alert.scanner_name
      ++ codes "\nDescription: "
      ++ alert.finding.description
      ++ codes "\n"

  abbrev mail : EmailConfig → Alert J → Text
  mail cfg alert = joined_with line_end (
      (codes "From: " ++ cfg.from)
      ∷ (codes "To: " ++ joined_with (codes ",") cfg.to)
      ∷ (codes "Subject: " ++ text_or cfg.subject "ArCsent Alert")
      ∷ []
      ∷ mail_body alert
      ∷ [])

  abbrev sign_in : EmailConfig → SignIn
  sign_in cfg =
      if not (is_empty cfg.smtp_user) && not (is_empty cfg.smtp_pass)
      then some (cfg.smtp_user, cfg.smtp_pass, first_of (split_char b':' cfg.smtp_server))
      else none

  abbrev mailed : EmailConfig → Alert J → Attempt W
  mailed cfg alert w =
      if is_empty cfg.smtp_server || is_empty cfg.from || is_empty cfg.to
      then (some (codes "email channel not configured"), w)
      else out.send_mail cfg.smtp_server (sign_in cfg) cfg.from cfg.to (mail cfg alert) w

  module _ (lower : Text → Text) where
    -- `Send` of a channel; an alert that is not allowed is passed over without an error.
    unfoldable pub send_to : Channel Writer → Alert J → Attempt W
    unfolding severity_allowed split_char show_nat
    send_to log alert w = (none, out.warn alert w)
    send_to (webhook url severity) alert w =
        if severity_allowed lower severity alert.severity
        then posted url (out.marshal alert) (out.request url) w
        else (none, w)
    send_to (syslog writer severity) alert w =
        if severity_allowed lower severity alert.severity then written writer alert w else (none, w)
    send_to (email cfg severity) alert w =
        if severity_allowed lower severity alert.severity then mailed cfg alert w else (none, w)

    -- The attempts at one channel with so many left: whether one gave no error, and the world after.
    unfoldable pub attempt_from : Channel Writer → Alert J → ℕ → ℕ → ℕ → W → Bool × W
    unfolding send_to sleep_time
    attempt_from ch alert backoff zero attempt w = (false, w)
    attempt_from ch alert backoff (suc left) attempt w = elim (send_to ch alert w).0 [
      | none ↦ (true, (send_to ch alert w).1)
      | some text ↦
          attempt_from ch alert backoff left (suc attempt)
            (out.sleep (sleep_time backoff attempt) (send_to ch alert w).1)
    ]

    -- `deliver`, without the log line of a channel that failed.
    unfoldable pub deliver : Engine J → Alert J → List (Channel Writer) → W → W
    unfolding attempt_from
    deliver e alert [] w = w
    deliver e alert (ch ∷ channels) w =
        deliver e alert channels (attempt_from ch alert e.retry_backoff (suc e.retry_max) 0 w).1
