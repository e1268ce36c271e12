-- ===== src/Dashboard/Steps.antt =====
-- web/src/pages/Dashboard.tsx: the page with its pending calls, and how it moves. A step is a click
-- that the rendered page offers, or the settling of any pending call with any outcome. The first
-- effect runs once, as in a production build.
use ar_csent.Prelude.{◌≡◌, List, ◌∷◌, ◌++◌, String}
use mathlib.Core.List.{Memᴰ}
use ar_csent.Jsx.{events}
use ar_csent.Components.{ClassValue}
use ar_csent.Dashboard.{State, initial, Event, Call, Settled, call_of, mount, handle, settle}
use ar_csent.Dashboard.Format.{Platform}
use ar_csent.Dashboard.View.{view}

pub record World : Type 0 where
  pub page : State
  pub pending : List Call

-- The page after its first effect.
unfoldable pub start : World
unfolding mount
start = record { page = (mount initial).0; pending = (mount initial).1 }

module _ (clsx : List ClassValue → String) (p : Platform) where
  pub data Step (w w' : World) : Type 0 where
    click :
        (e : Event)
        → Memᴰ e (events (view clsx p w.page))
        → w' ≡ record { page = (handle e w.page).0; pending = (handle e w.page).1 ∷ w.pending }
        → Step w w'
    settled :
        (outcome : Settled) (before after : List Call)
        → w.pending ≡ before ++ call_of outcome ∷ after
        → w' ≡ record { page = settle outcome w.page; pending = before ++ after }
        → Step w w'

  pub data Reach : World → Type 0 where
    here : Reach start
    next : {w w' : World} → Reach w → Step w w' → Reach w'
