-- ===== src/Examples/Storage.antt =====
-- The buckets of the results and of the baselines in the database in memory.
use ar_csent.Prelude.{ℕ, ◌≡◌, refl, ap, none, some, [], ◌∷◌, ◌++◌, pos, inl, arith}
use ar_csent.Text.{Text, codes, text_eq}
use ar_csent.Api.{Result, ok, err}
use ar_csent.GoStrings.{drop_prefix}
use ar_csent.Number.Print.{show_nat}
use ar_csent.Results.{ScanResult}
use ar_csent.Server.Handlers.{Backend, handle_export_results}
use ar_csent.Server.Http.{response}
use ar_csent.Storage.{make_key, put, delete, visit, for_each, as_result}
use ar_csent.Storage.Order.{text_lt}
use ar_csent.Storage.Stored.{Among}
use ar_csent.Storage.Buckets.{
  Codec, result_key, save, list_results, prune_results, results_bucket, baseline_bucket,
}
use ar_csent.Storage.Keys.{Saving}
use ar_csent.Storage.Listing.{list_results-save}
use ar_csent.Storage.Pruned.{Pruned}
use ar_csent.Storage.Pruning.{get-prune_results}
use ar_csent.Storage.Hidden.{export-hidden}
use ar_csent.Examples.Database.{Db, empty, memory, memory-IsLawful, insert, erase}
use ar_csent.Examples.Shown.{forms, backend}

abbrev finished : ℕ → ScanResult ℕ Unit
finished t = record {
  scanner_name = codes "disk";
  status = codes "success";
  findings = [];
  started_at = 0;
  finished_at = t;
  duration = pos 0;
  metadata = [];
}

abbrev decode_time : Text → Result (ScanResult ℕ Unit)
decode_time [] = err (codes "unexpected end of JSON input")
decode_time (t ∷ rest) = ok (finished t)

-- A stand-in for encoding/json that keeps the time.
abbrev codec : Codec (ScanResult ℕ Unit)
codec = record { encode = λ res. ok (res.finished_at ∷ []); decode = decode_time }

abbrev first_saved : Db
first_saved = (save memory codec 5 (codes "00") (finished 30) empty).0

abbrev both_saved : Db
both_saved = (save memory codec 7 (codes "01") (finished 70) first_saved).0

abbrev pruned : Db
pruned = (prune_results memory codec 50 both_saved).0

-- The first result is in the list that is given after the second was saved.
abbrev second : Saving Unit
second = record { at = 7; suffix = codes "01"; result = finished 70 }

list_results-save_example : Among (finished 30) (finished 30 ∷ finished 70 ∷ [])
unfolding save put insert make_key result_key show_nat text_lt text_eq memory list_results for_each
    visit drop_prefix
list_results-save_example =
    list_results-save memory codec 5 (codes "00") (finished 30) empty first_saved (second ∷ [])
      (finished 30 ∷ finished 70 ∷ []) memory-IsLawful
      (λ raw e. let q : raw ≡ 30 ∷ [] = cc e in ap decode_time q) refl
      (inl (λ e. absurd (omega arith)), tt) refl refl

get-prune_results_example :
    ((key : Text)
      → Pruned codec
          (λ res. res.finished_at)
          50
          (memory.get (make_key results_bucket key) both_saved)
          (memory.get (make_key results_bucket key) pruned))
    × ((other key : Text)
        → drop_prefix (make_key other key) (results_bucket ++ codes "/") ≡ none
        → memory.get (make_key other key) pruned ≡ memory.get (make_key other key) both_saved)
unfolding save put insert make_key result_key show_nat text_lt text_eq memory prune_results for_each
    visit drop_prefix delete erase
get-prune_results_example =
    get-prune_results memory codec 50 both_saved pruned memory-IsLawful refl refl

pruned_items : pruned.0 ≡ (codes "results/7-disk-01", ok (70 ∷ [])) ∷ []
unfolding save put insert make_key result_key show_nat text_lt text_eq memory prune_results for_each
    visit drop_prefix delete erase
pruned_items = refl

-- A baseline next to the two results.
abbrev with_baseline : Db
with_baseline = (put memory baseline_bucket (codes "disk::used") (1 ∷ []) both_saved).0

abbrev exporting : Backend ℕ Unit Unit
exporting = record backend { stored = some (as_result (list_results memory codec with_baseline)) }

export-hidden_example :
    (handle_export_results forms exporting [] ≡ response 200 (codes "[]"))
    × (prune_results memory codec 50 with_baseline ≡ (with_baseline, none))
unfolding save put insert make_key result_key show_nat text_lt text_eq memory
export-hidden_example =
    export-hidden memory codec forms exporting with_baseline (codes "disk::used") (1 ∷ []) [] 50
      memory-IsLawful refl refl
