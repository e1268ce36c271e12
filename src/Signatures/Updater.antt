-- ===== src/Signatures/Updater.antt =====
-- internal/signatures/updater.go: the updater. The lock that `runOnce` holds makes a run one step, and
-- the logger is left out.
use ar_csent.Prelude.{
  ℕ, suc, ◌+◌, not, Option, none, some, List, [], ◌∷◌, is_empty, if◌then◌else◌, ℤ, pos, negsuc,
  zero,
}
use ar_csent.Text.{Text, codes}
use ar_csent.Dict.{Dict, get, set}
use ar_csent.Api.{Result, ok, err}
use ar_csent.GoPaths.{join}
use ar_csent.Storage.{Badger}
use ar_csent.Storage.Buckets.{Codec}
use ar_csent.Signatures.{SourceStatus, Status, Config, HttpSource, built_in_sources}
use ar_csent.Signatures.Download.{Web, started, update}
use ar_csent.Signatures.Archives.{Files, import_airgap}
use ar_csent.Signatures.Stored.{save_status}

pub record Updater : Type 0 where
  pub cfg : Config
  pub sources : Dict HttpSource
  pub last_run : ℕ
  pub next_run : ℕ

unfoldable pub new_updater : Config → Updater
unfolding built_in_sources
new_updater cfg = record {
  cfg = cfg;
  sources = built_in_sources cfg.source_urls;
  last_run = 0;
  next_run = 0;
}

unfoldable pub update_config : Config → Updater → Updater
unfolding built_in_sources
update_config cfg u = record u { cfg = cfg; sources = built_in_sources cfg.source_urls }

-- What a run gives, and the states after it; there may be no store.
pub record Ran (W Db : Type 0) : Type 0 where
  pub status : Status
  pub updater : Updater
  pub world : W
  pub store : Option Db

-- A wait before the next round of `Start`, in nanoseconds, and the states by then.
pub record Round (W Db : Type 0) : Type 0 where
  pub wait : ℕ
  pub updater : Updater
  pub world : W
  pub store : Option Db

-- The time of the next run; an interval that is not positive leaves the old one, and a status none.
abbrev next_after : ℕ → ℤ → ℕ → ℕ
next_after now (pos zero) old = old
next_after now (pos (suc n)) old = now + suc n
next_after now (negsuc n) old = old

abbrev pub with_error : SourceStatus × Option Text → SourceStatus
with_error (st, none) = st
with_error (st, some text) = record st { error = text }

abbrev unregistered : Text → SourceStatus
unregistered id = record (started (record { id = id; url = [] })) {
  error = codes "source not registered";
}

abbrev airgap : Text
airgap = codes "airgap"

module _ {W : Type 0} (web : Web W) (files : Files W) where
  -- The status of a source, and the world after it.
  abbrev pub source_run : Text → Text → Option HttpSource → W → SourceStatus × W
  source_run cache_dir id none w = (unregistered id, w)
  source_run cache_dir id (some src) w = (
    with_error (update web src (join cache_dir id) w).0,
    (update web src (join cache_dir id) w).1,
  )

  unfoldable pub visit_sources :
      Text → Dict HttpSource → List Text → Dict SourceStatus → W → Dict SourceStatus × W
  unfolding get set update join
  visit_sources cache_dir sources [] statuses w = (statuses, w)
  visit_sources cache_dir sources (id ∷ ids) statuses w =
      let ran = source_run cache_dir id (get id sources) w in
      visit_sources cache_dir sources ids (set id ran.0 statuses) ran.1

  abbrev imported : Text → Result (Unit {0}) × W → Dict SourceStatus × W
  imported cache_dir (err text, w) =
      ((airgap, record (started (record { id = airgap; url = [] })) { error = text }) ∷ [], w)
  imported cache_dir (ok done, w) = (
    (
      airgap,
      record (started (record { id = airgap; url = [] })) {
        path = cache_dir;
        updated_at = web.now w;
      },
    )
        ∷ [],
    w,
  )

  unfoldable pub run_sources : Config → Dict HttpSource → W → Dict SourceStatus × W
  unfolding visit_sources import_airgap
  run_sources cfg sources w =
      if is_empty cfg.airgap_import_path
      then visit_sources cfg.cache_dir sources cfg.sources [] w
      else imported cfg.cache_dir (import_airgap files cfg.airgap_import_path cfg.cache_dir w)

module _ {W Db : Type 0} (web : Web W) (files : Files W) (badger : Badger Db)
    (codec : Codec Status) where
  -- The error of `SaveStatus` is not looked at.
  abbrev pub kept_status : Status → Option Db → Option Db
  kept_status status none = none
  kept_status status (some db) = some (save_status badger codec status db).0

  abbrev status_of : Updater → ℕ → Dict SourceStatus → Status
  status_of u now sources = record {
    last_run = now;
    next_run = next_after now u.cfg.update_interval 0;
    airgap_mode = not (is_empty u.cfg.airgap_import_path);
    airgap_import_path = u.cfg.airgap_import_path;
    sources = sources;
  }

  unfoldable pub run_once : Updater → W → Option Db → Ran W Db
  unfolding run_sources save_status
  run_once u w store =
      let ran = run_sources web files u.cfg u.sources w in
      let status = status_of u (web.now w) ran.0 in
      record {
        status = status;
        updater = record u {
          last_run = web.now w;
          next_run = next_after (web.now w) u.cfg.update_interval u.next_run;
        };
        world = ran.1;
        store = kept_status status store;
      }

  -- `Trigger`: its result, and the states after it.
  unfoldable pub trigger : Updater → W → Option Db → Result Status × Updater × W × Option Db
  unfolding run_once
  trigger u w store =
      let ran = run_once u w store in
      if u.cfg.enabled
      then (ok ran.status, ran.updater, ran.world, ran.store)
      else (err (codes "signatures updates are disabled"), u, w, store)

  abbrev idle : ℕ → Updater → W → Option Db → Round W Db
  idle wait u w store = record { wait = wait; updater = u; world = w; store = store }

  abbrev round : ℤ → Updater → W → Option Db → Round W Db
  round (pos zero) u w store = idle 10_000_000_000 u w store
  round (pos (suc n)) u w store =
      let ran = run_once u w store in idle (suc n) ran.updater ran.world ran.store
  round (negsuc n) u w store = idle 10_000_000_000 u w store

  -- A round of `Start`, up to its wait.
  unfoldable pub start_round : Updater → W → Option Db → Round W Db
  unfolding run_once
  start_round u w store =
      let ran = round u.cfg.update_interval u w store in
      if u.cfg.enabled then ran else idle 5_000_000_000 u w store
