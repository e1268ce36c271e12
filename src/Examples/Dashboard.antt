-- ===== src/Examples/Dashboard.antt =====
-- The dashboard at concrete states.
use ar_csent.Prelude.{◌≡◌, refl, Option, false, none, some, List, [], ◌∷◌}
use mathlib.Core.List.{Memᴰ}
use ar_csent.Text.{Text, codes}
use ar_csent.Api.{err, Request, Outcome, responded}
use ar_csent.Api.Metrics.{get_metrics}
use ar_csent.Api.Types.{SignatureSourceStatus}
use ar_csent.Jsx.{events}
use ar_csent.Server.Gauge
use ar_csent.Server.Metrics.{build_metrics}
use ar_csent.Dashboard.{
  State, initial, update_now, refresh, status_call, signatures_status_call, signatures_update_call,
  status_settled, signatures_status_settled, signatures_update_settled, metrics_settled, settle,
  mount, handle,
}
use ar_csent.Dashboard.View.{view}
use ar_csent.Dashboard.View.Clicks.{events-view}
use ar_csent.Dashboard.Steps.{World, start, Reach, here, next, click, settled}
use ar_csent.Dashboard.Loading.{IsConsistent, Reach-IsConsistent, Reach-settled}
use ar_csent.Examples.Data.{first_class, platform, storage, stats}

-- A server with the metrics page of the examples.
abbrev serve : Request → Outcome
serve q = responded (record { status = 200; status_text = codes "OK"; body = build_metrics stats })

abbrev served : State
served = settle (metrics_settled (get_metrics serve storage)) initial

-- The page after its first effect, with the metrics settled, the button clicked, and all settled.
abbrev refused : World
refused = record {
  page = settle (metrics_settled (err [])) start.page;
  pending = status_call ∷ signatures_status_call ∷ [];
}

refused-Reach : Reach first_class platform refused
unfolding start mount
refused-Reach =
    next here
      (settled (metrics_settled (err [])) (status_call ∷ signatures_status_call ∷ []) [] refl refl)

abbrev listed : World
listed = record {
  page = settle (signatures_status_settled (err (codes "timeout"))) refused.page;
  pending = status_call ∷ [];
}

listed-Reach : Reach first_class platform listed
listed-Reach =
    next refused-Reach
      (settled (signatures_status_settled (err (codes "timeout"))) (status_call ∷ []) [] refl refl)

abbrev clicked : World
clicked = record {
  page = (handle update_now listed.page).0;
  pending = signatures_update_call ∷ status_call ∷ [];
}

clicked-Reach : Reach first_class platform clicked
unfolding start mount settle handle
clicked-Reach =
    next listed-Reach
      (click update_now (rw (events-view first_class platform listed.page) (Memᴰ.head refl)) refl)

Reach-IsConsistent_example : IsConsistent clicked
Reach-IsConsistent_example = Reach-IsConsistent first_class platform clicked-Reach

abbrev quiet : World
quiet = record { page = settle (status_settled (err [])) listed.page; pending = [] }

quiet-Reach : Reach first_class platform quiet
quiet-Reach = next listed-Reach (settled (status_settled (err [])) [] [] refl refl)

Reach-settled_example :
    (quiet.page.sig_loading ≡ false)
    × (quiet.page.metrics_loading ≡ false)
    × (events (view first_class platform quiet.page) ≡ update_now ∷ refresh ∷ [])
Reach-settled_example = Reach-settled first_class platform quiet-Reach refl

abbrev source_of : Text → Option Text → SignatureSourceStatus
source_of name error = record {
  source = name;
  url = none;
  path = none;
  bytes = some 2048;
  updated_at = none;
  duration = none;
  error = error;
}

abbrev feeds : List SignatureSourceStatus
feeds =
    source_of (codes "nvd") none
    ∷ source_of (codes "osv") (some (codes "timeout"))
    ∷ source_of (codes "cisa") (some [])
    ∷ []

abbrev failed_load : State
failed_load = settle (signatures_status_settled (err [])) initial

abbrev failed_update : State
failed_update = settle (signatures_update_settled (err [])) initial
