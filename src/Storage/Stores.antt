-- ===== src/Storage/Stores.antt =====
-- internal/storage/badger.go as the store of the detection's baselines, and internal/signatures/store.go:
-- the status of the signatures in the store.
use ar_csent.Prelude.{◌≡◌, refl, Option, none, some, arith}
use ar_csent.Text.{Text}
use ar_csent.Api.{Result, ok, err}
use ar_csent.Detection.Baseline.{Baseline}
use ar_csent.Detection.Drift.{BaselineStore, IsFaithful}
use ar_csent.Detection.Drift as Drift
use ar_csent.Storage.{not_found, failed, Answer, value, failure, Badger, Run, put, get}
use ar_csent.Storage.Stored.{IsLawful, get-put}
use ar_csent.Storage.Buckets.{Codec, baseline_bucket}

abbrev to_option : {A : Type 0} → Result A → Option A
to_option (ok a) = some a
to_option (err text) = none

abbrev got : Answer Text → Drift.Got Text
got (value raw) = Drift.found raw
got (failure not_found) = Drift.missing
got (failure (failed text)) = Drift.broken

abbrev store_after : {Db : Type 0} → Run Db → Option Db
store_after (db, none) = some db
store_after (db, some e) = none

written : {Db : Type 0} (r : Run Db) (t : Db) → store_after r ≡ some t → r ≡ (t, none)
written (db, none) t h = ground arith
written (db, some e) t h = cc

encoded : {A : Type 0} (r : Result A) (a : A) → to_option r ≡ some a → r ≡ ok a
encoded (ok b) a h = ground arith
encoded (err text) a h = cc

module _ {Db F : Type 0} (badger : Badger Db) (codec : Codec (Baseline F)) where
  -- The store that `detection.NewManager` is given.
  unfoldable pub badger_baselines : BaselineStore Db Text F
  unfolding get put
  badger_baselines = record {
    read = λ key db. got (get badger baseline_bucket key db);
    write = λ key raw db. store_after (put badger baseline_bucket key raw db);
    encode = λ b. to_option (codec.encode b);
    decode = λ raw. to_option (codec.decode raw);
  }

  badger_baselines-IsFaithful :
      IsLawful badger
      → ((b : Baseline F) (raw : Text) → codec.encode b ≡ ok raw → codec.decode raw ≡ ok b)
      → IsFaithful badger_baselines
  unfolding badger_baselines
  badger_baselines-IsFaithful lawful faithful = record {
    read-write = λ k raw s t h.
        rw
          (get-put badger baseline_bucket k raw s t lawful
            (written (put badger baseline_bucket k raw s) t h))
          refl;
    decode-encode = λ b raw h. rw (faithful b raw (encoded (codec.encode b) raw h)) refl;
  }
