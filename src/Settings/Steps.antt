-- ===== src/Settings/Steps.antt =====
-- web/src/pages/Settings.tsx: the page over time. A timer fires when it is due or later, the
-- earliest first.
use ar_csent.Prelude.{◌≤◌, ◌≡◌, ℕ, List, ◌∷◌}
use ar_csent.Text.{Text}
use ar_csent.Api.{Storage}
use ar_csent.Settings.{World, mount, edit, handle_save, expire, wait}

pub data Step (w : World) : World → Type 0 where
  edited : (token : Text) → Step w (edit token w)
  saving : Step w (handle_save w)
  waiting : (ms : ℕ) → Step w (wait ms w)
  firing :
      (due : ℕ) (later : List ℕ) → w.timers ≡ due ∷ later → due ≤ w.now → Step w (expire later w)

pub data Reach (storage : Storage) (now : ℕ) : World → Type 0 where
  here : Reach storage now (mount storage now)
  next : {w w' : World} → Reach storage now w → Step w w' → Reach storage now w'
