-- ===== src/Examples/Database.antt =====
-- A database in memory that meets what Badger documents: items in the order of their keys.
use ar_csent.Prelude.{◌≡◌, refl, ap, true, false, List, [], ◌∷◌, if◌then◌else◌, arith}
use ar_csent.Text.{Text, text_eq}
use ar_csent.Text.Equality.{text_eq_iff}
use ar_csent.Api.{Result, ok, err}
use ar_csent.Storage.{found, missing, Badger, make_key}
use ar_csent.Storage.Order.{text_lt, Behind, IsSorted, text_lt_trans}
use ar_csent.Storage.Stored.{stored, IsLawful}

abbrev pub Items : Type 0
Items = List (Text × Result Text)

unfoldable pub insert : Text → Text → Items → Items
unfolding text_lt
insert k v [] = (k, ok v) ∷ []
insert k v ((j, item) ∷ items) =
    let rest = insert k v items in
    if text_eq j k
    then (k, ok v) ∷ items
    else if text_lt k j
    then (k, ok v) ∷ (j, item) ∷ items
    else (j, item) ∷ rest

unfoldable pub erase : Text → Items → Items
erase k [] = []
erase k ((j, item) ∷ items) =
    let rest = erase k items in if text_eq j k then rest else (j, item) ∷ rest

Behind-trans : (i k : Text) (items : Items) → text_lt i k ≡ true → Behind k items → Behind i items
Behind-trans i k [] h b = tt
Behind-trans i k ((j, item) ∷ items) h b = (text_lt_trans i k j h b.0, Behind-trans i k items h b.1)

text_lt_total : (s t : Text) → text_eq s t ≡ false → text_lt t s ≡ false → text_lt s t ≡ true
unfolding text_lt text_eq
text_lt_total [] [] d h = cc d
text_lt_total [] (y ∷ t) d h = refl
text_lt_total (x ∷ s) [] d h = cc h
text_lt_total (x ∷ s) (y ∷ t) d h = ground (arith, text_lt_total s t)

insert-Behind :
    (i k v : Text) (items : Items)
    → text_lt i k ≡ true
    → Behind i items
    → Behind i (insert k v items)
unfolding insert
insert-Behind i k v [] h b = (h, tt)
insert-Behind i k v ((j, item) ∷ items) h b = ground (arith, insert-Behind i k v items h b.1)

pub insert-IsSorted : (k v : Text) (items : Items) → IsSorted items → IsSorted (insert k v items)
unfolding insert
insert-IsSorted k v [] s = (tt, tt)
insert-IsSorted k v ((j, item) ∷ items) s = ground (
  arith,
  text_eq_iff j k,
  text_lt_total j k,
  Behind-trans k j items,
  insert-Behind j k v items,
  insert-IsSorted k v items s.1,
)

stored-insert :
    (j k v : Text) (items : Items)
    → stored j (insert k v items) ≡ (if text_eq k j then found v else stored j items)
unfolding insert
stored-insert j k v [] = ground arith
stored-insert j k v ((i, item) ∷ items) =
    ground (arith, text_eq_iff i k, text_eq_iff k j, text_eq_iff i j, stored-insert j k v items)

erase-Behind : (i k : Text) (items : Items) → Behind i items → Behind i (erase k items)
unfolding erase
erase-Behind i k [] b = tt
erase-Behind i k ((j, item) ∷ items) b = ground (arith, erase-Behind i k items b.1)

pub erase-IsSorted : (k : Text) (items : Items) → IsSorted items → IsSorted (erase k items)
unfolding erase
erase-IsSorted k [] s = tt
erase-IsSorted k ((j, item) ∷ items) s =
    ground (arith, erase-Behind j k items s.0, erase-IsSorted k items s.1)

stored-erase :
    (j k : Text) (items : Items)
    → stored j (erase k items) ≡ (if text_eq k j then missing else stored j items)
unfolding erase
stored-erase j k [] = ground arith
stored-erase j k ((i, item) ∷ items) =
    ground (arith, text_eq_iff i k, text_eq_iff k j, text_eq_iff i j, stored-erase j k items)

abbrev pub Db : Type 0
Db = (items : Items) × IsSorted items

abbrev pub empty : Db
empty = ([], tt)

unfoldable pub memory : Badger Db
unfolding insert erase
memory = record {
  set = λ k v db. ok (insert k v db.0, insert-IsSorted k v db.0 db.1);
  delete = λ k db. ok (erase k db.0, erase-IsSorted k db.0 db.1);
  get = λ k db. stored k db.0;
  items = λ db. db.0;
}

abbrev items_of : Result Db → Items
items_of (ok db) = db.0
items_of (err text) = []

items_of_ok : (a b : Db) → ◌≡◌ {A = Result Db} (ok a) (ok b) → a.0 ≡ b.0
items_of_ok a b e = ap items_of e

pub memory-IsLawful : IsLawful memory
unfolding memory
memory-IsLawful = record {
  get-set = λ k bucket key v db after e.
      rw (← items_of_ok _ after e) (stored-insert (make_key bucket key) k v db.0);
  get-delete = λ k bucket key db after e.
      rw (← items_of_ok _ after e) (stored-erase (make_key bucket key) k db.0);
  items-IsSorted = λ db. db.1;
  stored-items = λ bucket key db. refl;
}
