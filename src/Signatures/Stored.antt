-- ===== src/Signatures/Stored.antt =====
-- internal/signatures/store.go: the status in the store.
use ar_csent.Prelude.{◌≡◌, refl, inl, inr, false, none, some, [], ◌++◌}
use ar_csent.Text.{Text, codes}
use ar_csent.Api.{Result, ok, err}
use ar_csent.Storage.{not_found, failed, Answer, value, failure, Badger, Run, put, get}
use ar_csent.Storage.Buckets.{Codec}
use ar_csent.Storage.Stored.{IsLawful, Result-cases, get-put}
use ar_csent.Signatures.{Status}

abbrev pub no_status : Status
no_status = record {
  last_run = 0;
  next_run = 0;
  airgap_mode = false;
  airgap_import_path = [];
  sources = [];
}

abbrev signatures_bucket : Text
signatures_bucket = codes "signatures"

abbrev status_key : Text
status_key = codes "status"

module _ {Db : Type 0} (badger : Badger Db) (codec : Codec Status) where
  abbrev put_encoded : Db → Result Text → Run Db
  put_encoded db (ok raw) = put badger signatures_bucket status_key raw db
  put_encoded db (err text) = (db, some (failed (codes "encode signatures status: " ++ text)))

  unfoldable pub save_status : Status → Db → Run Db
  unfolding put
  save_status status db = put_encoded db (codec.encode status)

  abbrev decoded : Result Status → Answer Status
  decoded (ok status) = value status
  decoded (err text) = failure (failed (codes "decode signatures status: " ++ text))

  abbrev loaded : Answer Text → Answer Status
  loaded (value raw) = decoded (codec.decode raw)
  loaded (failure not_found) = value no_status
  loaded (failure (failed text)) = failure (failed text)

  -- A missing object of sources is the empty one.
  unfoldable pub load_status : Db → Answer Status
  unfolding get
  load_status db = loaded (get badger signatures_bucket status_key db)

  -- A status that was saved is loaded.
  pub load-save :
      (status : Status) (db after : Db)
      → IsLawful badger
      → ((raw : Text) → codec.encode status ≡ ok raw → codec.decode raw ≡ ok status)
      → save_status status db ≡ (after, none)
      → load_status after ≡ value status
  unfolding save_status load_status
  load-save status db after lawful faithful h = elim (Result-cases (codec.encode status)) [
    | inl (raw, e) ↦
        rw (get-put badger signatures_bucket status_key raw db after lawful (rw e at h))
          (rw (faithful raw e) refl)
    | inr (text, e) ↦ cc (h, e)
  ]
