-- ===== src/Api/Types.antt =====
-- web/src/lib/api.ts: the interfaces of the JSON bodies, and the calls of `api`, one for each
-- endpoint. An optional field is an `Option`; `none` is `undefined`.
use ar_csent.Prelude.{ℕ, Bool, Option, none, List, ◌++◌}
use ar_csent.Text.{Text, codes}
use ar_csent.Dict.{Dict}
use ar_csent.Number.{Number}
use ar_csent.Api.{Result, Storage, Request, Outcome, fetch, post}

pub record Finding : Type 0 where
  pub scanner_name : Text
  pub severity : Text
  pub category : Text
  pub description : Text
  pub occurred_at : Text
  pub remediation : Option Text
  pub evidence : Option (Dict Text)

pub record Baseline : Type 0 where
  pub metric : Text
  pub mean : Number
  pub min : Number
  pub max : Number

pub record SystemStatus : Type 0 where
  pub status : Text
  pub running_as_root : Bool
  pub version : Text

pub record SignatureSourceStatus : Type 0 where
  pub source : Text
  pub url : Option Text
  pub path : Option Text
  pub bytes : Option ℕ
  pub updated_at : Option Text
  pub duration : Option Text
  pub error : Option Text

pub record SignatureStatus : Type 0 where
  pub last_run : Option Text
  pub next_run : Option Text
  pub airgap_mode : Option Bool
  pub airgap_import_path : Option Text
  pub sources : Option (Dict SignatureSourceStatus)

-- The answer of `/scanners`; a job is any JSON value `J`. Go sends `null` for an empty list.
pub record ScannerList (J : Type 0) : Type 0 where
  pub plugins : Option (List Text)
  pub jobs : Option (List J)

abbrev pub trigger_path : Text → Text
trigger_path plugin = codes "/scanners/trigger/" ++ plugin

module _ (transport : Request → Outcome) (storage : Storage) where
  unfoldable pub get_status : (Text → Result SystemStatus) → Result SystemStatus
  unfolding fetch
  get_status decode = fetch transport decode storage (codes "/status") none

  unfoldable pub get_scanners :
      {J : Type 0} → (Text → Result (ScannerList J)) → Result (ScannerList J)
  unfolding fetch
  get_scanners decode = fetch transport decode storage (codes "/scanners") none

  unfoldable pub get_findings : (Text → Result (List Finding)) → Result (List Finding)
  unfolding fetch
  get_findings decode = fetch transport decode storage (codes "/findings") none

  unfoldable pub get_baselines : (Text → Result (List Baseline)) → Result (List Baseline)
  unfolding fetch
  get_baselines decode = fetch transport decode storage (codes "/baselines") none

  unfoldable pub get_latest_results : {J : Type 0} → (Text → Result (List J)) → Result (List J)
  unfolding fetch
  get_latest_results decode = fetch transport decode storage (codes "/results/latest") none

  unfoldable pub trigger_scan : {J : Type 0} → (Text → Result J) → Text → Result J
  unfolding fetch
  trigger_scan decode plugin = fetch transport decode storage (trigger_path plugin) post

  unfoldable pub get_signatures_status : (Text → Result SignatureStatus) → Result SignatureStatus
  unfolding fetch
  get_signatures_status decode = fetch transport decode storage (codes "/signatures/status") none

  unfoldable pub trigger_signatures_update :
      (Text → Result SignatureStatus) → Result SignatureStatus
  unfolding fetch
  trigger_signatures_update decode =
      fetch transport decode storage (codes "/signatures/update") post
