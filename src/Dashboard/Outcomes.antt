-- ===== src/Dashboard/Outcomes.antt =====
-- web/src/pages/Dashboard.tsx with web/src/lib/api.ts: what the page shows after a call.
use ar_csent.Prelude.{ℕ, ◌≡◌, ◌≢◌, refl, false, Option, none, [], ◌∷◌}
use mathlib.Core.Option
use ar_csent.Text.{Text, codes}
use ar_csent.Api.{ok, err, Storage, Request, Outcome, responded, fetch_text_request, get_token}
use ar_csent.Api.Metrics.{get_metrics, parse_metrics}
use ar_csent.Server.Gauge
use ar_csent.Server.Metrics.{Stats, build_metrics}
use ar_csent.Server.Metrics.Entries.{count}
use ar_csent.Dashboard.{
  State, signatures_status_settled, signatures_update_settled, settle, message_or, load_failed,
  update_failed,
}
use ar_csent.Dashboard.Format.{Platform}
use ar_csent.Dashboard.View.{shown_or}

message_or-ne-nil : (message fallback : Text) → fallback ≢ [] → message_or message fallback ≢ []
message_or-ne-nil [] fallback h = h
message_or-ne-nil (c ∷ message) fallback h = cc

-- The data that two states of the page show is the same.
pub record KeepsData (s s' : State) : Type 0 where
  pub status : s'.status ≡ s.status
  pub signature_status : s'.signature_status ≡ s.signature_status
  pub metrics : s'.metrics ≡ s.metrics

-- A failed signature call, of either kind, keeps the data of the page, always shows a message, stops
-- the loading of the signatures, and leaves the metrics' message and loading flag alone.
pub settle-signatures_failed :
    (message : Text) (s : State)
    → (let s' = settle (signatures_status_settled (err message)) s in
        KeepsData s s'
        × (s'.sig_error ≢ [])
        × (s'.sig_loading ≡ false)
        × (s'.metrics_error ≡ s.metrics_error)
        × (s'.metrics_loading ≡ s.metrics_loading))
      × (let s' = settle (signatures_update_settled (err message)) s in
          KeepsData s s'
          × (s'.sig_error ≢ [])
          × (s'.sig_loading ≡ false)
          × (s'.metrics_error ≡ s.metrics_error)
          × (s'.metrics_loading ≡ s.metrics_loading))
unfolding settle
settle-signatures_failed message s = (
  (
    record { status = refl; signature_status = refl; metrics = refl },
    message_or-ne-nil message load_failed (cc),
    refl,
    refl,
    refl,
  ),
  (
    record { status = refl; signature_status = refl; metrics = refl },
    message_or-ne-nil message update_failed (cc),
    refl,
    refl,
    refl,
  ),
)

-- What the daemon serves at /api/metrics: its metrics page, with the status 200.
abbrev pub Serves : (Request → Outcome) → Storage → Stats → Type 0
Serves transport storage stats =
    (status_text : Text) × (transport
        (fetch_text_request (get_token storage) (codes "/metrics") none)
      ≡ responded (record { status = 200; status_text = status_text; body = build_metrics stats }))

pub get_metrics_of_Serves :
    (transport : Request → Outcome) (storage : Storage) (stats : Stats)
    → Serves transport storage stats
    → get_metrics transport storage ≡ ok (parse_metrics (build_metrics stats))
unfolding get_metrics
get_metrics_of_Serves transport storage stats (t, h) = rw h

abbrev shown_count : Platform → Text → Option ℕ → Text
shown_count p missing o = shown_or p missing (Option.map count o)
