-- ===== src/Storage.antt =====
-- internal/storage/badger.go and internal/storage/store.go: the store over a Badger database. Badger
-- itself is the record `Badger`; a key or a value is its text, and `filepath.ToSlash` changes nothing
-- where the separator is a slash.
pub mod Order
pub mod Buckets
pub mod Stored
pub mod Visits
pub mod Keys
pub mod Listing
pub mod Pruned
pub mod Pruning
pub mod Hidden
pub mod Stores
use ar_csent.Prelude.{◌||◌, Option, none, some, List, [], ◌∷◌, ◌++◌, is_empty, if◌then◌else◌}
use ar_csent.Text.{Text, codes}
use ar_csent.Api.{Result, ok, err}
use ar_csent.GoStrings.{drop_prefix}

-- `ErrNotFound`, and every other error with its message.
pub data Error : Type 0 where
  not_found : Error
  failed : Text → Error

pub data Answer (A : Type 0) : Type 0 where
  value : A → Answer A
  failure : Error → Answer A

-- `err.Error()`
abbrev pub message : Error → Text
message not_found = codes "not found"
message (failed text) = text

-- A value, or the text of the error.
abbrev pub as_result : {A : Type 0} → Answer A → Result A
as_result (value a) = ok a
as_result (failure e) = err (message e)

-- What `Get` of a transaction gives: a value, `ErrKeyNotFound`, or another error.
pub data Found : Type 0 where
  found : Text → Found
  missing : Found
  broken : Text → Found

-- Badger: `Update` of one `Set` and of one `Delete`, with the database after them; `View` of one `Get`
-- that copies the value; and the items that an iterator of a view meets from `Rewind` on, each with its
-- key and what reading its value gives.
pub record Badger (Db : Type 0) : Type 0 where
  pub set : Text → Text → Db → Result Db
  pub delete : Text → Db → Result Db
  pub get : Text → Db → Found
  pub items : Db → List (Text × Result Text)

-- A state with the error that ended the work on it.
abbrev pub Run : Type 0 → Type 0
Run S = S × Option Error

unfoldable pub make_key : Text → Text → Text
make_key bucket key = bucket ++ codes "/" ++ key

abbrev pub required : Error
required = failed (codes "bucket and key are required")

module _ {Db : Type 0} (badger : Badger Db) where
  abbrev updated : Db → Result Db → Run Db
  updated db (ok after) = (after, none)
  updated db (err text) = (db, some (failed text))

  abbrev answered : Found → Answer Text
  answered (found v) = value v
  answered missing = failure not_found
  answered (broken text) = failure (failed text)

  unfoldable pub put : Text → Text → Text → Db → Run Db
  unfolding make_key
  put bucket key v db =
      if is_empty bucket || is_empty key
      then (db, some required)
      else updated db (badger.set (make_key bucket key) v db)

  unfoldable pub get : Text → Text → Db → Answer Text
  unfolding make_key
  get bucket key db =
      if is_empty bucket || is_empty key
      then failure required
      else answered (badger.get (make_key bucket key) db)

  unfoldable pub delete : Text → Text → Db → Run Db
  unfolding make_key
  delete bucket key db =
      if is_empty bucket || is_empty key
      then (db, some required)
      else updated db (badger.delete (make_key bucket key) db)

module _ {S : Type 0} (fn : Text → Text → S → Run S) where
  -- The next round, unless the callback failed.
  abbrev pub proceed : (S → Run S) → Run S → Run S
  proceed next (s, none) = next s
  proceed next (s, some e) = (s, some e)

  abbrev pub read_item : Text → Result Text → S → Run S
  read_item key (ok v) s = fn key v s
  read_item key (err text) s = (s, some (failed text))

  -- The loop from `Rewind`, while `ValidForPrefix`.
  unfoldable pub visit : Text → List (Text × Result Text) → S → Run S
  unfolding drop_prefix
  visit prefix [] s = (s, none)
  visit prefix ((k, item) ∷ items) s = elim (drop_prefix k prefix) [
    | none ↦ (s, none)
    | some key ↦ proceed (visit prefix items) (read_item key item s)
  ]

  unfoldable pub for_each : Text → List (Text × Result Text) → S → Run S
  unfolding visit
  for_each bucket items s =
      if is_empty bucket
      then (s, some (failed (codes "bucket is required")))
      else visit (bucket ++ codes "/") items s
