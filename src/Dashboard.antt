-- ===== src/Dashboard.antt =====
-- web/src/pages/Dashboard.tsx: the state of the page, its calls of the API, and what it does with
-- their outcomes. `useState` is a field; a setter called in a handler is an update of the field.
pub mod Sources
pub mod Format
pub mod View
pub mod Steps
pub mod Loading
pub mod Outcomes
use ar_csent.Prelude.{
  Bool, true, false, Option, none, some, List, [], ◌∷◌, ◌++◌, is_empty, if◌then◌else◌,
}
use ar_csent.Text.{Text, codes}
use ar_csent.Dict.{Dict}
use ar_csent.Number.{Number}
use ar_csent.Api.{Result, ok, err}
use ar_csent.Api.Types.{SystemStatus, SignatureStatus}

pub record State : Type 0 where
  pub status : Option SystemStatus
  pub signature_status : Option SignatureStatus
  pub sig_error : Text
  pub sig_loading : Bool
  pub metrics_error : Text
  pub metrics : Dict Number
  pub metrics_loading : Bool

abbrev pub initial : State
initial = record {
  status = none;
  signature_status = none;
  sig_error = [];
  sig_loading = false;
  metrics_error = [];
  metrics = [];
  metrics_loading = false;
}

-- What the user can do on the page.
pub data Event : Type 0 where
  update_now : Event
  refresh : Event

-- A call of the API that has not settled yet.
pub data Call : Type 0 where
  status_call : Call
  signatures_status_call : Call
  signatures_update_call : Call
  metrics_call : Call

-- The outcome of a call.
pub data Settled : Type 0 where
  status_settled : Result SystemStatus → Settled
  signatures_status_settled : Result SignatureStatus → Settled
  signatures_update_settled : Result SignatureStatus → Settled
  metrics_settled : Result (Dict Number) → Settled

abbrev pub call_of : Settled → Call
call_of (status_settled r) = status_call
call_of (signatures_status_settled r) = signatures_status_call
call_of (signatures_update_settled r) = signatures_update_call
call_of (metrics_settled r) = metrics_call

-- `err.message || fallback`
abbrev pub message_or : Text → Text → Text
message_or message fallback = if is_empty message then fallback else message

abbrev pub load_failed : Text
load_failed = codes "Failed to load signatures"

abbrev pub update_failed : Text
update_failed = codes "Update failed"

abbrev pub metrics_failed : Text
metrics_failed = codes "Failed to load metrics"

-- `refreshSignatures`, `handleSignatureUpdate` and `refreshMetrics` up to their call: the new
-- state, and the call that is now pending.
unfoldable pub refresh_signatures : State → State × Call
refresh_signatures s = (record s { sig_loading = true }, signatures_status_call)

unfoldable pub handle_signature_update : State → State × Call
handle_signature_update s = (record s { sig_loading = true }, signatures_update_call)

unfoldable pub refresh_metrics : State → State × Call
refresh_metrics s = (record s { metrics_loading = true }, metrics_call)

-- `useEffect` of the first render: the state and the calls that it starts.
unfoldable pub mount : State → State × List Call
unfolding refresh_signatures refresh_metrics
mount s =
    let (s', sig) = refresh_signatures s in
    let (s'', met) = refresh_metrics s' in (s'', status_call ∷ sig ∷ met ∷ [])

-- The click handlers of the page.
unfoldable pub handle : Event → State → State × Call
unfolding handle_signature_update refresh_metrics
handle update_now s = handle_signature_update s
handle refresh s = refresh_metrics s

-- `.then`, `.catch` and `.finally` of the signature calls.
abbrev settle_signatures : Text → Result SignatureStatus → State → State
settle_signatures fallback (ok status) s = record s {
  signature_status = some status;
  sig_error = [];
  sig_loading = false;
}
settle_signatures fallback (err message) s = record s {
  sig_error = message_or message fallback;
  sig_loading = false;
}

abbrev settle_metrics : Result (Dict Number) → State → State
settle_metrics (ok found) s = record s {
  metrics = found;
  metrics_error = [];
  metrics_loading = false;
}
settle_metrics (err message) s = record s {
  metrics_error = message_or message metrics_failed;
  metrics_loading = false;
}

-- The failure of the status call is only logged.
abbrev settle_status : Result SystemStatus → State → State
settle_status (ok status) s = record s { status = some status }
settle_status (err message) s = s

unfoldable pub settle : Settled → State → State
settle (status_settled r) s = settle_status r s
settle (signatures_status_settled r) s = settle_signatures load_failed r s
settle (signatures_update_settled r) s = settle_signatures update_failed r s
settle (metrics_settled r) s = settle_metrics r s
