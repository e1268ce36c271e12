-- ===== src/Storage/Stored.antt =====
-- What Badger documents: a read sees the last write of its key, and an iterator meets the items of the
-- database in the order of their keys.
use ar_csent.Prelude.{
  ◌≡◌, ◌∙◌, refl, ◌⊎◌, inl, inr, ◌||◌, is_empty, Bool-cases, arith, none, some, List, [], ◌∷◌,
  if◌then◌else◌,
}
use ar_csent.Text.{Text, text_eq}
use ar_csent.Text.Equality.{text_eq_refl}
use ar_csent.Api.{Result, ok, err}
use ar_csent.GoStrings.{drop_prefix}
use ar_csent.Storage.{Found, found, missing, broken, Badger, make_key, put, get, value}
use ar_csent.Storage.Order.{IsSorted}

abbrev of_item : Result Text → Found
of_item (ok v) = found v
of_item (err message) = broken message

-- The item of a key.
abbrev pub stored : Text → List (Text × Result Text) → Found
stored k [] = missing
stored k ((j, item) ∷ items) = if text_eq j k then of_item item else stored k items

pub record IsLawful {Db : Type 0} (badger : Badger Db) : Type 0 where
  pub get-set :
      (k bucket key v : Text) (db after : Db)
      → badger.set k v db ≡ ok after
      → badger.get (make_key bucket key) after
        ≡ (if text_eq k (make_key bucket key) then found v else badger.get (make_key bucket key) db)
  pub get-delete :
      (k bucket key : Text) (db after : Db)
      → badger.delete k db ≡ ok after
      → badger.get (make_key bucket key) after
        ≡ (if text_eq k (make_key bucket key) then missing else badger.get (make_key bucket key) db)
  pub items-IsSorted : (db : Db) → IsSorted (badger.items db)
  pub stored-items :
      (bucket key : Text) (db : Db)
      → stored (make_key bucket key) (badger.items db) ≡ badger.get (make_key bucket key) db

-- The items of a bucket, without its prefix.
abbrev pub rows : Text → List (Text × Result Text) → List (Text × Result Text)
rows prefix [] = []
rows prefix ((k, item) ∷ items) = elim (drop_prefix k prefix) [
  | none ↦ rows prefix items
  | some key ↦ (key, item) ∷ rows prefix items
]

abbrev pub Among : {A : Type 0} → A → List A → Type 0
Among a [] = ⊥
Among a (x ∷ xs) = (x ≡ a) ⊎ Among a xs

pub Result-cases :
    {A : Type 0} (r : Result A) → ((a : A) × (r ≡ ok a)) ⊎ ((text : Text) × (r ≡ err text))
Result-cases (ok a) = inl (a, refl)
Result-cases (err text) = inr (text, refl)

module _ {Db : Type 0} (badger : Badger Db) (bucket key v : Text) (db after : Db) where
  set-put :
      put badger bucket key v db ≡ (after, none) → badger.set (make_key bucket key) v db ≡ ok after
  unfolding put
  set-put h = ground (
    arith,
    Bool-cases (is_empty bucket || is_empty key),
    Result-cases (badger.set (make_key bucket key) v db),
  )

  -- A write that gives no error leaves its value under its key.
  pub stored-put :
      IsLawful badger
      → put badger bucket key v db ≡ (after, none)
      → stored (make_key bucket key) (badger.items after) ≡ found v
  stored-put lawful h =
      lawful.stored-items bucket key after
      ∙ (lawful.get-set (make_key bucket key) bucket key v db after (set-put h)
          ∙ rw (text_eq_refl (make_key bucket key)) refl)

  -- It is also what `Get` gives.
  pub get-put :
      IsLawful badger
      → put badger bucket key v db ≡ (after, none)
      → get badger bucket key after ≡ value v
  unfolding put get
  get-put lawful h = ground (
    arith,
    Bool-cases (is_empty bucket || is_empty key),
    set-put h,
    lawful.get-set (make_key bucket key) bucket key v db after,
    text_eq_refl (make_key bucket key),
  )
