-- ===== src/Dashboard/Sources.antt =====
-- web/src/pages/Dashboard.tsx: the counts over the signature sources.
use ar_csent.Prelude.{
  ℕ, ◌-◌, Bool, false, not, Option, none, some, List, [], ◌∷◌, is_empty, length, filter,
}
use ar_csent.Dict.{Dict}
use ar_csent.Api.Types.{SignatureSourceStatus, SignatureStatus}

-- `src.error` as a condition: "" and `undefined` are false.
abbrev pub has_error : SignatureSourceStatus → Bool
has_error src = elim src.error [ none ↦ false | some e ↦ not (is_empty e) ]

abbrev values : Dict SignatureSourceStatus → List SignatureSourceStatus
values [] = []
values ((k, v) ∷ d) = v ∷ values d

abbrev values_of : Option (Dict SignatureSourceStatus) → List SignatureSourceStatus
values_of none = []
values_of (some d) = values d

-- `Object.values(signatureStatus?.sources || {})`
unfoldable pub source_list : Option SignatureStatus → List SignatureSourceStatus
source_list none = []
source_list (some status) = values_of status.sources

unfoldable pub total_sources : List SignatureSourceStatus → ℕ
total_sources sources = length sources

unfoldable pub failed_sources : List SignatureSourceStatus → ℕ
failed_sources sources = length (filter has_error sources)

-- `totalSources - failedSources`
unfoldable pub ok_sources : List SignatureSourceStatus → ℕ
unfolding total_sources failed_sources
ok_sources sources = total_sources sources - failed_sources sources
