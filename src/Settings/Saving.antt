-- ===== src/Settings/Saving.antt =====
-- web/src/pages/Settings.tsx: how long the message of a save is shown, and what a save means to the
-- requests that follow it.
use ar_csent.Prelude.{
  ℕ, ◌+◌, ◌-◌, ◌≤◌, ◌<◌, ◌≡◌, ◌≢◌, refl, none, some, List, [], ◌∷◌, ◌++◌, All, All-append, arith,
}
use ar_csent.Text.{Text, text_eq}
use ar_csent.Dict.{get}
use ar_csent.Api.{Storage, get_token, fetch_request, fetch_text_request, authorization}
use ar_csent.Api.Headers.{get_token-set_token}
use ar_csent.Settings.{World, saved, delay, mount, edit, handle_save, expire, wait}
use ar_csent.Settings.Steps.{Step, edited, saving, waiting, firing, Reach, here, next}

-- A message has a timer that will clear it, and every timer is due within the delay.
pub record IsTransient (w : World) : Type 0 where
  pub cleared : w.page.status ≢ [] → w.timers ≢ []
  pub soon : All (λ due. due ≤ w.now + delay) w.timers

soon-wait :
    (now ms : ℕ) (timers : List ℕ)
    → All (λ due. due ≤ now + delay) timers
    → All (λ due. due ≤ (now + ms) + delay) timers
soon-wait now ms [] h = tt
soon-wait now ms (due ∷ timers) h = (omega arith, soon-wait now ms timers h.1)

append-ne-nil : (timers : List ℕ) (due : ℕ) → ◌≢◌ {A = List ℕ} (timers ++ due ∷ []) []
append-ne-nil [] due = cc
append-ne-nil (t ∷ timers) due = cc

Step-IsTransient : {w w' : World} → Step w w' → IsTransient w → IsTransient w'
unfolding edit handle_save wait expire
Step-IsTransient (edited token) t = record { cleared = t.cleared; soon = t.soon }
Step-IsTransient {w} saving t = record {
  cleared = λ _. append-ne-nil w.timers (w.now + delay);
  soon = All-append _ w.timers ((w.now + delay) ∷ []) t.soon (omega arith, tt);
}
Step-IsTransient {w} (waiting ms) t = record {
  cleared = t.cleared;
  soon = soon-wait w.now ms w.timers t.soon;
}
Step-IsTransient (firing due later e over) t = record {
  cleared = λ ne. absurd (ne refl);
  soon = (rw e at t.soon).1;
}

-- Whenever the page shows a message a timer is pending that will clear it, and every pending timer
-- is due within three seconds.
pub Reach-IsTransient :
    (storage : Storage) (now : ℕ) {w : World} → Reach storage now w → IsTransient w
Reach-IsTransient storage now here =
    unfold mount in record { cleared = λ ne. absurd (ne refl); soon = tt }
Reach-IsTransient storage now (next r st) = Step-IsTransient st (Reach-IsTransient storage now r)

-- A second save within the delay, with no timer pending before: the first save's timer takes the second one's message away, while
-- the second one's own timer is still pending and not yet due.
pub save_twice_cleared_early :
    (w : World) (ms : ℕ)
    → w.timers ≡ []
    → 0 < ms
    → ms < delay
    → (let w' = wait (delay - ms) (handle_save (wait ms (handle_save w))) in
        (w'.page.status ≡ saved)
        × (w'.timers ≡ (w.now + delay) ∷ (w.now + ms + delay) ∷ [])
        × (w.now + delay ≤ w'.now)
        × (w'.now < w.now + ms + delay)
        × ((expire ((w.now + ms + delay) ∷ []) w').page.status ≡ []))
unfolding handle_save wait expire
save_twice_cleared_early w ms none_pending pos within =
    (refl, rw none_pending, omega arith, omega arith, refl)

-- After a save every call without options of its own, of JSON or of text, sends the token of the
-- form, even an empty one.
pub handle_save-authorization :
    (w : World) (path : Text)
    → (get authorization (fetch_request (get_token (handle_save w).storage) path none).headers
        ≡ some w.page.token)
      × (get authorization
            (fetch_text_request (get_token (handle_save w).storage) path none).headers
          ≡ some w.page.token)
unfolding handle_save fetch_request fetch_text_request get text_eq
handle_save-authorization w path = (
  rw (get_token-set_token w.page.token w.storage),
  rw (get_token-set_token w.page.token w.storage),
)
