-- ===== src/Signatures.antt =====
-- internal/signatures: the updater of the signature sources (updater.go, registry.go) and the status
-- that it keeps (store.go). The package os, the network and the clock are the record `World`. Times are
-- nanoseconds since Go's zero time; where there is no time, that is 0.
pub mod Paths
pub mod Download
pub mod Archives
pub mod Extraction
pub mod Updater
pub mod Sources
pub mod Stored
pub mod Reports
pub mod Shown
use ar_csent.Prelude.{ℕ, Bool, List, [], ◌∷◌, ◌++◌, ℤ}
use ar_csent.Text.{Text, codes}
use ar_csent.Dict.{Dict, spread}
use ar_csent.Api.{Result, ok, err}

pub record SourceStatus : Type 0 where
  pub source : Text
  pub url : Text
  pub path : Text
  pub bytes : ℤ
  pub updated_at : ℕ
  pub duration : Text
  pub error : Text

pub record Status : Type 0 where
  pub last_run : ℕ
  pub next_run : ℕ
  pub airgap_mode : Bool
  pub airgap_import_path : Text
  pub sources : Dict SourceStatus

pub record Config : Type 0 where
  pub enabled : Bool
  pub update_interval : ℤ
  pub sources : List Text
  pub cache_dir : Text
  pub airgap_import_path : Text
  pub source_urls : Dict Text

pub record HttpSource : Type 0 where
  pub id : Text
  pub url : Text

-- What the calls of os, net/http, io and archive do with a state of the world: a result and the state
-- after it. An archive's entries are read one by one with `next`.
abbrev pub Action : Type 0 → Type 0 → Type 0
Action W A = W → Result A × W

module _ {W A B : Type 0} where
  infixl 5 ◌>>=◌
  abbrev pub resumed : (A → Action W B) → Result A × W → Result B × W
  resumed f (ok a, w) = f a w
  resumed f (err text, w) = (err text, w)

  abbrev pub ◌>>=◌ : Action W A → (A → Action W B) → Action W B
  m >>= f = λ w. resumed f (m w)

module _ {W A : Type 0} where
  abbrev pub return : A → Action W A
  return a w = (ok a, w)

  abbrev pub fail : Text → Action W A
  fail text w = (err text, w)

  abbrev pub explained : Text → Result A × W → Result A × W
  explained context (ok a, w) = (ok a, w)
  explained context (err text, w) = (err (context ++ text), w)

  -- `fmt.Errorf("context: %w", err)` where the action fails.
  abbrev pub within : Text → Action W A → Action W A
  within context m w = explained context (m w)

-- `defaultSourceURLs`
abbrev pub default_source_urls : Dict Text
default_source_urls =
    (
      codes "mitre_attack",
      codes
          "https://raw.githubusercontent.com/mitre/cti/master/enterprise-attack/enterprise-attack.json",
    )
    ∷ (codes "nvd", codes "https://nvd.nist.gov/feeds/json/cve/2.0/nvdcve-2.0-recent.json.gz")
    ∷ (
      codes "cisa_kev",
      codes "https://www.cisa.gov/sites/default/files/feeds/known_exploited_vulnerabilities.json",
    )
    ∷ (
      codes "exploit_db",
      codes "https://gitlab.com/exploit-database/exploitdb/-/raw/main/files_exploits.csv",
    )
    ∷ (codes "osv", [])
    ∷ (codes "mitre_capec", [])
    ∷ (codes "mitre_cwe", [])
    ∷ (codes "epss", [])
    ∷ (codes "ghsa", [])
    ∷ []

abbrev pub with_ids : Dict Text → Dict HttpSource
with_ids [] = []
with_ids ((id, url) ∷ urls) = (id, record { id = id; url = url }) ∷ with_ids urls

unfoldable pub built_in_sources : Dict Text → Dict HttpSource
unfolding spread
built_in_sources overrides = with_ids (spread default_source_urls overrides)

-- `DefaultSources`
abbrev pub default_sources : List Text
default_sources =
    codes "mitre_attack" ∷ codes "nvd" ∷ codes "osv" ∷ codes "cisa_kev" ∷ codes "exploit_db" ∷ []

-- `knownSources`
abbrev pub known_sources : List Text
known_sources =
    codes "mitre_attack"
    ∷ codes "mitre_capec"
    ∷ codes "mitre_cwe"
    ∷ codes "nvd"
    ∷ codes "osv"
    ∷ codes "cisa_kev"
    ∷ codes "exploit_db"
    ∷ codes "epss"
    ∷ codes "ghsa"
    ∷ []
