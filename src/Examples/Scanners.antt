-- ===== src/Examples/Scanners.antt =====
-- The list of scanners at concrete states.
use ar_csent.Prelude.{refl, true, false, none, some, [], ◌∷◌}
use mathlib.Core.List.{Memᴰ}
use ar_csent.Text.{Text, codes}
use ar_csent.Dict.{get, set}
use ar_csent.Api.{ok}
use ar_csent.Scanners.{load, handle_trigger, is_loading}
use ar_csent.Scanners.View.Clicks.{events-view_idle}
use ar_csent.Scanners.Steps.{World, Reach, here, next, listed, click}
use ar_csent.Scanners.Loading.{IsConsistent, Reach-IsTracked}
use ar_csent.Examples.Data.{first_class}

abbrev disk : Text
disk = codes "system.disk_usage"

abbrev uptime : Text
uptime = codes "system.uptime"

-- The page with two scanners, then with a trigger pending.
abbrev filled : World
filled = record {
  page = record { scanners = disk ∷ uptime ∷ []; loading = [] };
  listing = false;
  pending = [];
}

filled-Reach : Reach Unit first_class filled
unfolding load
filled-Reach =
    next here (listed (ok (record { plugins = some (disk ∷ uptime ∷ []); jobs = none })) refl refl)

abbrev busy : World
busy = record {
  page = record { scanners = disk ∷ uptime ∷ []; loading = (uptime, true) ∷ [] };
  listing = false;
  pending = uptime ∷ [];
}

busy-Reach : Reach Unit first_class busy
unfolding is_loading get set handle_trigger
busy-Reach =
    next filled-Reach (
      click uptime (rw (events-view_idle first_class filled.page) (Memᴰ.tail (Memᴰ.head refl)))
        refl)

Reach-IsTracked_example : IsConsistent busy
Reach-IsTracked_example = Reach-IsTracked Unit first_class busy-Reach
