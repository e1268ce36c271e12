-- ===== src/Settings.antt =====
-- web/src/pages/Settings.tsx: the token form. `setTimeout` is a timer with the time at which it is
-- due; times are in milliseconds.
pub mod View
pub mod Steps
pub mod Saving
use ar_csent.Prelude.{ℕ, ◌+◌, List, [], ◌∷◌, ◌++◌}
use ar_csent.Text.{Text, codes}
use ar_csent.Api.{Storage, get_token, set_token, or_empty}

pub record State : Type 0 where
  pub token : Text
  pub status : Text

-- The page, the browser's local storage, the clock, and the timers in the order in which they were
-- set, which is that of their times.
pub record World : Type 0 where
  pub page : State
  pub storage : Storage
  pub now : ℕ
  pub timers : List ℕ

abbrev pub saved : Text
saved = codes "Token saved successfully."

abbrev pub delay : ℕ
delay = 3000

-- The first render and its effect.
unfoldable pub mount : Storage → ℕ → World
unfolding get_token
mount storage now = record {
  page = record { token = or_empty (get_token storage); status = [] };
  storage = storage;
  now = now;
  timers = [];
}

-- The input's `onChange`.
unfoldable pub edit : Text → World → World
edit token w = record w { page = record { token = token; status = w.page.status } }

-- `handleSave`
unfoldable pub handle_save : World → World
unfolding set_token
handle_save w = record {
  page = record { token = w.page.token; status = saved };
  storage = set_token w.page.token w.storage;
  now = w.now;
  timers = w.timers ++ (w.now + delay) ∷ [];
}

-- The callback of a timer, and the timers that are left.
unfoldable pub expire : List ℕ → World → World
expire timers w = record {
  page = record { token = w.page.token; status = [] };
  storage = w.storage;
  now = w.now;
  timers = timers;
}

unfoldable pub wait : ℕ → World → World
wait ms w = record w { now = w.now + ms }
