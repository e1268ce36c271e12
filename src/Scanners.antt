-- ===== src/Scanners.antt =====
-- web/src/pages/Scanners.tsx: the list of scanners and the calls that trigger them.
pub mod View
pub mod Steps
pub mod Loading
use ar_csent.Prelude.{Bool, true, false, Option, none, some, List, []}
use ar_csent.Text.{Text}
use ar_csent.Dict.{Dict, get, set}
use ar_csent.Api.{Result, ok, err}
use ar_csent.Api.Types.{ScannerList}

pub record State : Type 0 where
  pub scanners : List Text
  pub loading : Dict Bool

abbrev pub initial : State
initial = record { scanners = []; loading = [] }

-- `data.plugins || []`
abbrev pub plugins_or_empty : Option (List Text) → List Text
plugins_or_empty none = []
plugins_or_empty (some plugins) = plugins

-- The outcome of the call of the first effect; its failure is only logged.
unfoldable pub load : {J : Type 0} → Result (ScannerList J) → State → State
load (ok found) s = record s { scanners = plugins_or_empty found.plugins }
load (err message) s = s

-- `setLoading((prev) => ({ ...prev, [plugin]: value }))`
unfoldable pub set_loading : Text → Bool → State → State
unfolding set
set_loading plugin value s = record s { loading = set plugin value s.loading }

-- `handleTrigger` up to its `await`, and what follows it: the same whether the call succeeded.
unfoldable pub handle_trigger : Text → State → State
unfolding set_loading
handle_trigger plugin s = set_loading plugin true s

unfoldable pub settle_trigger : {J : Type 0} → Text → Result J → State → State
unfolding set_loading
settle_trigger plugin (ok answer) s = set_loading plugin false s
settle_trigger plugin (err message) s = set_loading plugin false s

abbrev or_false : Option Bool → Bool
or_false none = false
or_false (some b) = b

-- `loading[plugin]`, where `undefined` counts as false.
unfoldable pub is_loading : Text → State → Bool
unfolding get
is_loading plugin s = or_false (get plugin s.loading)
