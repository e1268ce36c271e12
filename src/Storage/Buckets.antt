-- ===== src/Storage/Buckets.antt =====
-- internal/storage/results.go and, of internal/detection/baseline.go, `List` and `PruneOlderThan`: the
-- buckets of the results and of the baselines. Times are nanoseconds since Go's zero time, and
-- encoding/json on a type is a `Codec`.
use ar_csent.Prelude.{
  ℕ, Bool, false, not, ◌&&◌, none, some, List, [], ◌∷◌, ◌++◌, ltb, ◌==◌, if◌then◌else◌,
}
use ar_csent.Text.{Text, codes}
use ar_csent.Api.{Result, ok, err}
use ar_csent.Number.Print.{show_nat}
use ar_csent.Results.{ScanResult}
use ar_csent.Detection.Baseline.{Baseline}
use ar_csent.Storage.{not_found, failed, Answer, value, failure, Badger, Run, put, delete, for_each}

pub record Codec (A : Type 0) : Type 0 where
  pub encode : A → Result Text
  pub decode : Text → Result A

abbrev pub results_bucket : Text
results_bucket = codes "results"

abbrev pub baseline_bucket : Text
baseline_bucket = codes "baselines"

-- `!t.IsZero() && t.Before(cutoff)`
abbrev pub is_before : ℕ → ℕ → Bool
is_before cutoff t = not (t == 0) && ltb t cutoff

module _ {A : Type 0} (codec : Codec A) where
  -- The callback of `List`; the text stands before the error of a value that is not decoded.
  abbrev pub decoded : Text → List A → Result A → Run (List A)
  decoded context out (ok a) = (out ++ a ∷ [], none)
  decoded context out (err message) = (out, some (failed (context ++ message)))

  abbrev pub collect : Text → Text → Text → List A → Run (List A)
  collect context key v out = decoded context out (codec.decode v)

  -- `List` behind its loop.
  abbrev pub listed : Run (List A) → Answer (List A)
  listed (out, none) = value out
  listed (out, some not_found) = value []
  listed (out, some (failed message)) = failure (failed message)

  -- Whether the callback of `PruneOlderThan` deletes: a value that is not decoded stays.
  abbrev pub is_old : (A → ℕ) → ℕ → Result A → Bool
  is_old time cutoff (ok a) = is_before cutoff (time a)
  is_old time cutoff (err message) = false

-- `fmt.Sprintf("%d-%s-%s", now, name, suffix)`
unfoldable pub result_key : ℕ → Text → Text → Text
unfolding show_nat
result_key now name suffix = show_nat now ++ codes "-" ++ name ++ codes "-" ++ suffix

module _ {Db J : Type 0} (badger : Badger Db) (codec : Codec (ScanResult ℕ J)) where
  abbrev saved : ℕ → Text → Text → Db → Result Text → Run Db
  saved now name suffix db (ok raw) = put badger results_bucket (result_key now name suffix) raw db
  saved now name suffix db (err message) = (db, some (failed (codes "encode result: " ++ message)))

  -- `Save` at a time, with what `randSuffix` gives.
  unfoldable pub save : ℕ → Text → ScanResult ℕ J → Db → Run Db
  unfolding put result_key
  save now suffix result db = saved now result.scanner_name suffix db (codec.encode result)

  unfoldable pub list_results : Db → Answer (List (ScanResult ℕ J))
  unfolding for_each
  list_results db =
      listed codec
        (for_each (collect codec (codes "decode result: ")) results_bucket (badger.items db) [])

  abbrev pub expire_result : ℕ → Text → Text → Db → Run Db
  expire_result cutoff key v db =
      if is_old codec (λ res. res.finished_at) cutoff (codec.decode v)
      then delete badger results_bucket key db
      else (db, none)

  unfoldable pub prune_results : ℕ → Db → Run Db
  unfolding for_each delete
  prune_results cutoff db = for_each (expire_result cutoff) results_bucket (badger.items db) db

module _ {Db F : Type 0} (badger : Badger Db) (codec : Codec (Baseline F)) where
  unfoldable pub list_baselines : Db → Answer (List (Baseline F))
  unfolding for_each
  list_baselines db =
      listed codec
        (for_each (collect codec (codes "decode baseline: ")) baseline_bucket (badger.items db) [])

  abbrev pub expire_baseline : ℕ → Text → Text → Db → Run Db
  expire_baseline cutoff key v db =
      if is_old codec (λ b. b.updated_at) cutoff (codec.decode v)
      then delete badger baseline_bucket key db
      else (db, none)

  unfoldable pub prune_baselines : ℕ → Db → Run Db
  unfolding for_each delete
  prune_baselines cutoff db = for_each (expire_baseline cutoff) baseline_bucket (badger.items db) db
