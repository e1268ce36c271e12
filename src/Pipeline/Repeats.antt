-- ===== src/Pipeline/Repeats.antt =====
-- internal/daemon/runner.go with internal/alerting/engine.go: the alerts of the drifts of one scanner.
use ar_csent.Prelude.{ℕ, ◌-◌, ◌<◌, ◌≡◌, refl, true, false, some, arith}
use ar_csent.Text.{Text}
use ar_csent.Dict.{get}
use ar_csent.Dict.Laws.{get-set_self}
use ar_csent.Alerting.{
  Alert, Engine, prepare, is_throttled, mark_seen, enqueue, send_prepared, send,
}
use ar_csent.Pipeline.{Setup, drift_finding, alert_of}

module _ {J : Type 0} (hash : Text → Text) where
  last_seen-send :
      (now : ℕ) (alert : Alert J) (e : Engine J)
      → e.enabled ≡ true
      → is_throttled now (prepare hash now alert).id e ≡ false
      → get (prepare hash now alert).id (send hash now alert e).last_seen ≡ some now
  unfolding send send_prepared mark_seen enqueue
  last_seen-send now alert e on passes =
      ground (arith, get-set_self (prepare hash now alert).id now e.last_seen)

  kept-send :
      (now : ℕ) (alert : Alert J) (e : Engine J)
      → ((send hash now alert e).throttle ≡ e.throttle)
        × ((send hash now alert e).enabled ≡ e.enabled)
  unfolding send send_prepared mark_seen enqueue
  kept-send now alert e = ground arith

  send_throttled :
      (now : ℕ) (alert : Alert J) (e : Engine J)
      → is_throttled now (prepare hash now alert).id e ≡ true
      → send hash now alert e ≡ e
  unfolding send send_prepared
  send_throttled now alert e h = ground arith

  send-repeated :
      (now later : ℕ) (alert again : Alert J) (e : Engine J)
      → e.enabled ≡ true
      → is_throttled now (prepare hash now alert).id e ≡ false
      → (prepare hash later again).id ≡ (prepare hash now alert).id
      → later - now < e.throttle
      → send hash later again (send hash now alert e) ≡ send hash now alert e
  unfolding is_throttled
  send-repeated now later alert again e on passes same soon =
      send_throttled later again (send hash now alert e) (
        rw same
          (rw (last_seen-send now alert e on passes) (rw (kept-send now alert e).0 (ground arith))))

module _ {S B F J D : Type 0} (setup : Setup S B F J D) where
  -- If an enabled engine lets an alert of a drift pass, it takes none of another drift of the same
  -- scanner that follows within the window, also of another metric and another value: all drifts of
  -- a scanner count as the same alert.
  pub send-drifts :
      (scanner_name metric other_metric : Text) (value other_value : F) (now later : ℕ)
      (e : Engine J)
      → e.enabled ≡ true
      → is_throttled now
          (prepare setup.hash now
            (alert_of setup scanner_name (drift_finding setup metric value))).id
          e
        ≡ false
      → later - now < e.throttle
      → send setup.hash later
          (alert_of setup scanner_name (drift_finding setup other_metric other_value))
          (send setup.hash now (alert_of setup scanner_name (drift_finding setup metric value)) e)
        ≡ send setup.hash now (alert_of setup scanner_name (drift_finding setup metric value)) e
  send-drifts scanner_name metric other_metric value other_value now later e on passes soon =
      send-repeated setup.hash now later _ _ e on passes refl soon
