-- ===== src/Alerting/Reached.antt =====
-- internal/alerting: which channels an alert reaches.
use ar_csent.Prelude.{
  ℕ, ap, sym, suc, ◌≡◌, refl, ◌∙◌, Bool, true, false, ◌&&◌, ◌||◌, not, Option, none, List, [], ◌∷◌,
  filter, All, is_empty, if◌then◌else◌, Bool-cases, arith, ◌⊎◌, inl, inr, ◌≢◌, ◌↔◌,
}
use ar_csent.Text.{Text, codes}
use ar_csent.Text.Equality.{text_eq_iff}
use ar_csent.Api.{Result, ok, err, ◌>>=◌}
use ar_csent.Alerting.{Alert, Engine}
use ar_csent.Alerting.Channels.{
  ChannelConfig, Channel, log, webhook, syslog, email, Outside, severity_allowed, new_channel,
  listed, or_log, build_channels, send_to, attempt_from, deliver,
}

-- The severities that a channel is for; none stands for all.
abbrev severities : {Writer : Type 0} → Channel Writer → List Text
severities log = []
severities (webhook url severity) = severity
severities (syslog writer severity) = severity
severities (email cfg severity) = severity

module _ (lower : Text → Text) where
  -- The channel is for every severity, or for this one among others.
  abbrev pub takes_severity : {Writer : Type 0} → Channel Writer → Text → Bool
  takes_severity ch severity = severity_allowed lower (severities ch) severity

module _ {W J Writer : Type 0} (out : Outside W J Writer) (lower : Text → Text) where
  send_to-silent :
      (ch : Channel Writer) (alert : Alert J) (w : W)
      → takes_severity lower ch alert.severity ≡ false
      → send_to out lower ch alert w ≡ (none, w)
  unfolding send_to
  send_to-silent log alert w h = cc h
  send_to-silent (webhook url severity) alert w h = rw (h, send_to) refl
  send_to-silent (syslog writer severity) alert w h = rw (h, send_to) refl
  send_to-silent (email cfg severity) alert w h = rw (h, send_to) refl

  passed_over :
      (ch : Channel Writer) (alert : Alert J) (backoff left : ℕ) (w : W)
      → takes_severity lower ch alert.severity ≡ false
      → attempt_from out lower ch alert backoff (suc left) 0 w ≡ (true, w)
  unfolding attempt_from
  passed_over ch alert backoff left w h =
      rw (send_to-silent ch alert w h, attempt_from)
        (ap (λ (r : Option Text × W). (true, r.1)) (send_to-silent ch alert w h))

  -- A delivery over channels does what one over only those channels does that take the alert's severity,
  -- in their order: the others, wherever they stand, change nothing.
  pub deliver-filter :
      (e : Engine J) (alert : Alert J) (channels : List (Channel Writer)) (w : W)
      → deliver out lower e alert channels w
        ≡ deliver out lower e alert
            (filter (λ ch. takes_severity lower ch alert.severity) channels)
            w
  unfolding deliver
  deliver-filter e alert [] w = refl
  deliver-filter e alert (ch ∷ channels) w =
      elim (Bool-cases (takes_severity lower ch alert.severity)) [
        | inl takes ↦ rw takes (deliver-filter e alert channels _)
        | inr passes ↦ rw passes (
            rw (passed_over ch alert e.retry_backoff e.retry_max w passes)
              (deliver-filter e alert channels w))
      ]

is_empty_iff : (s : Text) → (is_empty s ≡ true) ↔ (s ≡ [])
is_empty_iff [] = (λ h. refl, λ h. refl)
is_empty_iff (c ∷ s) = (λ h. cc h, λ h. cc h)

abbrev pub succeeds : {A : Type 0} → Result A → Bool
succeeds (ok a) = true
succeeds (err text) = false

succeeds-listed :
    {A : Type 0} (b : Bool) (r : Result A) (rs : Result (List A))
    → succeeds (if b then (r >>= λ a. rs >>= λ list. ok (a ∷ list)) else rs)
      ≡ ((not b || succeeds r) && succeeds rs)
succeeds-listed true (ok a) (ok list) = refl
succeeds-listed true (ok a) (err text) = refl
succeeds-listed true (err text) rs = refl
succeeds-listed false r rs = refl

both_true : (b p q : Bool) → ((not b || p) && q) ≡ true → (b ≡ true → p ≡ true) × (q ≡ true)
both_true b p q h = ground arith

both_of : (b p q : Bool) → (b ≡ true → p ≡ true) → q ≡ true → ((not b || p) && q) ≡ true
both_of b p q h k = ground arith

-- A channel's configuration has a known type, and a webhook has a URL.
abbrev pub Valid : ChannelConfig → Type 0
Valid ch =
    (ch.type ≡ codes "log")
    ⊎ ((ch.type ≡ codes "webhook") × (ch.url ≢ []))
    ⊎ (ch.type ≡ codes "syslog")
    ⊎ (ch.type ≡ codes "email")

module _ {W J Writer : Type 0} (out : Outside W J Writer) where
  new_channel-Valid : (ch : ChannelConfig) → (succeeds (new_channel out ch) ≡ true) ↔ Valid ch
  unfolding new_channel
  new_channel-Valid ch = ground (
    arith,
    text_eq_iff ch.type (codes "log"),
    text_eq_iff ch.type (codes "webhook"),
    text_eq_iff ch.type (codes "syslog"),
    text_eq_iff ch.type (codes "email"),
    is_empty_iff ch.url,
  )

  listed-Valid :
      (cfgs : List ChannelConfig)
      → (succeeds (listed out cfgs) ≡ true) ↔ All (λ ch. ch.enabled ≡ true → Valid ch) cfgs
  unfolding listed
  listed-Valid [] = (λ h. tt, λ h. refl)
  listed-Valid (ch ∷ cfgs) =
      let e = succeeds-listed ch.enabled (new_channel out ch) (listed out cfgs) in
      let one = new_channel-Valid ch in
      let rest = listed-Valid cfgs in
      (
        λ h.
            let both =
              both_true ch.enabled (succeeds (new_channel out ch)) (succeeds (listed out cfgs))
                (sym e ∙ h) in
            (λ on. one.0 (both.0 on), rest.0 both.1),
        λ h.
            e
            ∙ both_of ch.enabled (succeeds (new_channel out ch)) (succeeds (listed out cfgs))
                (λ on. one.1 (h.0 on)) (rest.1 h.1),
      )

  or_log-ne-nil : (channels : List (Channel Writer)) → or_log out channels ≢ []
  or_log-ne-nil [] h = cc h
  or_log-ne-nil (ch ∷ channels) h = cc h

  -- The channels are built exactly if every entry that is enabled has a known type and, where it is a
  -- webhook, a URL; and then there is at least one.
  pub build_channels-Valid :
      (cfgs : List ChannelConfig)
      → ((succeeds (build_channels out cfgs) ≡ true)
          ↔ All (λ ch. ch.enabled ≡ true → Valid ch) cfgs)
        × ((channels : List (Channel Writer))
            → build_channels out cfgs ≡ ok channels
            → channels ≢ [])
  unfolding build_channels
  build_channels-Valid cfgs =
      (built (listed out cfgs) (listed-Valid cfgs), some_channel (listed out cfgs))
    where
      built :
          {P : Type 0} (r : Result (List (Channel Writer)))
          → (succeeds r ≡ true) ↔ P
          → (succeeds (r >>= λ channels. ok (or_log out channels)) ≡ true) ↔ P
      built (ok channels) h = h
      built (err text) h = h

      some_channel :
          (r : Result (List (Channel Writer))) (channels : List (Channel Writer))
          → (r >>= λ channels. ok (or_log out channels)) ≡ ok channels
          → channels ≢ []
      some_channel (ok cs) channels h = λ q. or_log-ne-nil cs (cc (h, q))
      some_channel (err text) channels h = cc h
