-- ===== src/Dashboard/Loading.antt =====
-- web/src/pages/Dashboard.tsx: the loading flags tell which calls are pending.
use ar_csent.Prelude.{
  ℕ, ◌+◌, ◌≡◌, refl, sym, ◌∙◌, ap, Bool, true, false, List, [], ◌∷◌, ◌++◌, String, arith,
  if◌then◌else◌,
}
use mathlib.Core.List.{Memᴰ}
use ar_csent.Jsx.{events}
use ar_csent.Components.{ClassValue}
use ar_csent.Api.{ok, err}
use ar_csent.Dashboard.{
  State, Event, update_now, refresh, Call, signatures_status_call, signatures_update_call,
  metrics_call, Settled, status_settled, signatures_status_settled, signatures_update_settled,
  metrics_settled, call_of, handle, settle,
}
use ar_csent.Dashboard.Format.{Platform}
use ar_csent.Dashboard.View.{view}
use ar_csent.Dashboard.View.Clicks.{events-view}
use ar_csent.Dashboard.Steps.{World, start, Step, click, settled, Reach, here, next}

abbrev pub is_signature : Call → ℕ
is_signature signatures_status_call = 1
is_signature signatures_update_call = 1
is_signature _ = 0

abbrev pub is_metrics : Call → ℕ
is_metrics metrics_call = 1
is_metrics _ = 0

-- The pending calls of a kind.
abbrev pub total : (Call → ℕ) → List Call → ℕ
total kind [] = 0
total kind (c ∷ calls) = kind c + total kind calls

abbrev pub one_if : Bool → ℕ
one_if b = if b then 1 else 0

-- At most one signature call and one metrics call are pending, and the flags say whether.
pub record IsConsistent (w : World) : Type 0 where
  pub signatures : total is_signature w.pending ≡ one_if w.page.sig_loading
  pub metrics : total is_metrics w.pending ≡ one_if w.page.metrics_loading

total-append :
    (kind : Call → ℕ) (xs : List Call) (c : Call) (ys : List Call)
    → total kind (xs ++ c ∷ ys) ≡ kind c + total kind (xs ++ ys)
total-append kind [] c ys = refl
total-append kind (x ∷ xs) c ys = omega (arith, total-append kind xs c ys)

start-IsConsistent : IsConsistent start
unfolding start
start-IsConsistent = record { signatures = refl; metrics = refl }

-- What a click finds: the flag of its button is off.
abbrev Idle : Event → State → Type 0
Idle update_now s = s.sig_loading ≡ false
Idle refresh s = s.metrics_loading ≡ false

Memᴰ-one : {e e' : Event} → Memᴰ e (e' ∷ []) → e ≡ e'
Memᴰ-one (Memᴰ.head h) = h
Memᴰ-one (Memᴰ.tail m) = elim m [ ]

offered-Idle :
    (sig met : Bool) (e : Event) (s : State)
    → s.sig_loading ≡ sig
    → s.metrics_loading ≡ met
    → Memᴰ e ((if sig then [] else update_now ∷ []) ++ (if met then [] else refresh ∷ []))
    → Idle e s
offered-Idle false met update_now s es em h = es
offered-Idle true false update_now s es em h = cc (Memᴰ-one h)
offered-Idle true true update_now s es em h = elim h [ ]
offered-Idle sig false refresh s es em h = em
offered-Idle true true refresh s es em h = elim h [ ]
offered-Idle false true refresh s es em h = cc (Memᴰ-one h)

handle-IsConsistent :
    (e : Event) (w : World)
    → IsConsistent w
    → Idle e w.page
    → IsConsistent
        (record { page = (handle e w.page).0; pending = (handle e w.page).1 ∷ w.pending })
unfolding handle
handle-IsConsistent update_now w c h = ground arith
handle-IsConsistent refresh w c h = ground arith

settle-IsConsistent :
    (o : Settled) (w : World) (before after : List Call)
    → IsConsistent w
    → w.pending ≡ before ++ call_of o ∷ after
    → IsConsistent (record { page = settle o w.page; pending = before ++ after })
unfolding settle
settle-IsConsistent o w before after c e =
    on_kind o
      (omega (arith, ap (total is_signature) e, total-append is_signature before (call_of o) after))
      (omega (arith, ap (total is_metrics) e, total-append is_metrics before (call_of o) after))
  where
    on_kind :
        (o : Settled)
        → is_signature (call_of o) + total is_signature (before ++ after)
          ≡ total is_signature w.pending
        → is_metrics (call_of o) + total is_metrics (before ++ after) ≡ total is_metrics w.pending
        → IsConsistent (record { page = settle o w.page; pending = before ++ after })
    on_kind (status_settled (ok s)) sig met = ground arith
    on_kind (status_settled (err m)) sig met = ground arith
    on_kind (signatures_status_settled (ok s)) sig met = ground arith
    on_kind (signatures_status_settled (err m)) sig met = ground arith
    on_kind (signatures_update_settled (ok s)) sig met = ground arith
    on_kind (signatures_update_settled (err m)) sig met = ground arith
    on_kind (metrics_settled (ok s)) sig met = ground arith
    on_kind (metrics_settled (err m)) sig met = ground arith

off : (b : Bool) → one_if b ≡ 0 → b ≡ false
off true h = absurd (omega arith)
off false h = refl

module _ (clsx : List ClassValue → String) (p : Platform) where
  Step-IsConsistent : {w w' : World} → Step clsx p w w' → IsConsistent w → IsConsistent w'
  Step-IsConsistent {w} (click e offered same) c = rw same (
      handle-IsConsistent e w c (
        offered-Idle w.page.sig_loading w.page.metrics_loading e w.page refl refl
          (rw (events-view clsx p w.page) at offered)))
  Step-IsConsistent {w} (settled o before after e same) c =
      rw same (settle-IsConsistent o w before after c e)

  -- In every reachable state at most one signature call and one metrics call are pending, and each
  -- loading flag is on exactly while its call is.
  pub Reach-IsConsistent : {w : World} → Reach clsx p w → IsConsistent w
  Reach-IsConsistent here = start-IsConsistent
  Reach-IsConsistent (next r st) = Step-IsConsistent st (Reach-IsConsistent r)

  -- When every call has settled, nothing is shown as loading and both buttons take clicks.
  pub Reach-settled :
      {w : World}
      → Reach clsx p w
      → w.pending ≡ []
      → (w.page.sig_loading ≡ false)
        × (w.page.metrics_loading ≡ false)
        × (events (view clsx p w.page) ≡ update_now ∷ refresh ∷ [])
  Reach-settled {w} r e = (sig, met, rw (events-view clsx p w.page, sig, met))
    where
      consistent : IsConsistent w
      consistent = Reach-IsConsistent r

      sig : w.page.sig_loading ≡ false
      sig = off w.page.sig_loading (sym consistent.signatures ∙ ap (total is_signature) e)

      met : w.page.metrics_loading ≡ false
      met = off w.page.metrics_loading (sym consistent.metrics ∙ ap (total is_metrics) e)
