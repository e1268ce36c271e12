-- ===== src/Scanners/Steps.antt =====
-- web/src/pages/Scanners.tsx: the page with its pending triggers. A step is the settling of the
-- call of the first effect, a click that the page offers, or the settling of a pending trigger.
use ar_csent.Prelude.{◌≡◌, true, false, Bool, List, [], ◌∷◌, ◌++◌, String}
use mathlib.Core.List.{Memᴰ}
use ar_csent.Text.{Text}
use ar_csent.Api.{Result}
use ar_csent.Api.Types.{ScannerList}
use ar_csent.Jsx.{events}
use ar_csent.Components.{ClassValue}
use ar_csent.Scanners.{State, initial, load, handle_trigger, settle_trigger}
use ar_csent.Scanners.View.{view}

-- `listing` says that the call of the first effect is pending; `pending` has the scanners whose
-- trigger is.
pub record World : Type 0 where
  pub page : State
  pub listing : Bool
  pub pending : List Text

abbrev pub start : World
start = record { page = initial; listing = true; pending = [] }

module _ (J : Type 0) (clsx : List ClassValue → String) where
  pub data Step (w w' : World) : Type 0 where
    listed :
        (found : Result (ScannerList J))
        → w.listing ≡ true
        → w' ≡ record { page = load found w.page; listing = false; pending = w.pending }
        → Step w w'
    click :
        (plugin : Text)
        → Memᴰ plugin (events (view clsx w.page))
        → w' ≡ record {
          page = handle_trigger plugin w.page;
          listing = w.listing;
          pending = plugin ∷ w.pending;
        }
        → Step w w'
    settled :
        (plugin : Text) (answer : Result J) (before after : List Text)
        → w.pending ≡ before ++ plugin ∷ after
        → w' ≡ record {
          page = settle_trigger plugin answer w.page;
          listing = w.listing;
          pending = before ++ after;
        }
        → Step w w'

  pub data Reach : World → Type 0 where
    here : Reach start
    next : {w w' : World} → Reach w → Step w w' → Reach w'
