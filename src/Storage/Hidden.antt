-- ===== src/Storage/Hidden.antt =====
-- internal/storage/results.go and internal/api/server.go: the saved results next to a baseline.
use ar_csent.Prelude.{ℕ, ◌≡◌, refl, ◌∙◌, true, none, some, List, [], ◌∷◌, if◌then◌else◌, arith}
use ar_csent.Text.{Text, codes, text_eq}
use ar_csent.Text.Equality.{text_eq_iff}
use ar_csent.Api.{Result}
use ar_csent.Results.{ScanResult}
use ar_csent.Server.Http.{response}
use ar_csent.Server.Handlers.{Forms, Backend, handle_export_results, results_header}
use ar_csent.Storage.{value, found, Badger, make_key, as_result}
use ar_csent.Storage.Order.{text_lt}
use ar_csent.Storage.Stored.{stored, IsLawful}
use ar_csent.Storage.Buckets.{
  Codec, collect, expire_result, results_bucket, baseline_bucket, list_results, prune_results,
}
use ar_csent.Storage.Listing.{results_prefix}
use ar_csent.Storage.Visits.{has_before, for_each-rows}

stored-has_before :
    (k p raw : Text) (items : List (Text × Result Text))
    → stored k items ≡ found raw
    → text_lt k p ≡ true
    → has_before p items ≡ true
stored-has_before k p raw [] h before = cc
stored-has_before k p raw ((j, item) ∷ items) h before =
    ground (arith, text_eq_iff j k, stored-has_before k p raw items)

module _ {Db J : Type 0} (badger : Badger Db) (codec : Codec (ScanResult ℕ J)) where
  found-has_before :
      (db : Db) (key raw : Text)
      → IsLawful badger
      → badger.get (make_key baseline_bucket key) db ≡ found raw
      → has_before results_prefix (badger.items db) ≡ true
  found-has_before db key raw lawful h =
      stored-has_before (make_key baseline_bucket key) results_prefix raw (badger.items db)
        (lawful.stored-items baseline_bucket key db ∙ h) (unfold make_key text_lt in refl)

  list_results-hidden :
      (db : Db) (key raw : Text)
      → IsLawful badger
      → badger.get (make_key baseline_bucket key) db ≡ found raw
      → list_results badger codec db ≡ value []
  unfolding list_results
  list_results-hidden db key raw lawful h =
      rw
        (
          for_each-rows (collect codec (codes "decode result: ")) results_bucket (badger.items db)
              [] refl (lawful.items-IsSorted db),
          found-has_before db key raw lawful h,
        )
        refl

  prune_results-hidden :
      (cutoff : ℕ) (db : Db) (key raw : Text)
      → IsLawful badger
      → badger.get (make_key baseline_bucket key) db ≡ found raw
      → prune_results badger codec cutoff db ≡ (db, none)
  unfolding prune_results
  prune_results-hidden cutoff db key raw lawful h =
      rw
        (
          for_each-rows (expire_result badger codec cutoff) results_bucket (badger.items db) db refl
              (lawful.items-IsSorted db),
          found-has_before db key raw lawful h,
        )
        refl

-- As soon as a lawful database holds one baseline, /export/results, which answers the list of the
-- database, answers the CSV header alone or the form of the empty list, and the pruning of the results
-- changes nothing, whatever results are saved.
pub export-hidden :
    {Db F J Status : Type 0} (badger : Badger Db) (codec : Codec (ScanResult ℕ J))
    (forms : Forms F J Status) (b : Backend F J Status) (db : Db) (key raw format : Text)
    (cutoff : ℕ)
    → IsLawful badger
    → badger.get (make_key baseline_bucket key) db ≡ found raw
    → b.stored ≡ some (as_result (list_results badger codec db))
    → (handle_export_results forms b format
        ≡ response 200 (
            if text_eq format (codes "csv")
            then forms.csv (results_header forms ∷ [])
            else forms.results []))
      × (prune_results badger codec cutoff db ≡ (db, none))
unfolding handle_export_results
export-hidden badger codec forms b db key raw format cutoff lawful h shown = (
  rw shown (rw (list_results-hidden badger codec db key raw lawful h) refl),
  prune_results-hidden badger codec cutoff db key raw lawful h,
)
