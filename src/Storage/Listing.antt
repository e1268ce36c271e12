-- ===== src/Storage/Listing.antt =====
-- internal/storage/results.go: what `List` gives of the results that were saved, and what the API's
-- export answers of it.
use ar_csent.Prelude.{
  ℕ, ◌≡◌, ◌↔◌, refl, false, none, List, [], ◌∷◌, ◌++◌, Option-cases, arith, append-nil,
  append_assoc, ap, sym, ◌∙◌, inl, inr, All,
}
use ar_csent.Text.{Text, codes}
use ar_csent.Text.Equality.{text_eq_iff}
use ar_csent.Api.{Result, ok, err}
use ar_csent.GoStrings.{drop_prefix}
use ar_csent.Storage.Order.{drop_prefix-append}
use ar_csent.Results.{ScanResult}
use ar_csent.Storage.{value, found, Badger, make_key, put}
use ar_csent.Storage.Stored.{stored, IsLawful, rows, Among, Result-cases, stored-put}
use ar_csent.Storage.Buckets.{
  Codec, collect, listed, results_bucket, result_key, list_results, save,
}
use ar_csent.Storage.Keys.{Saving, Differs, save_all, get-save_all}
use ar_csent.Storage.Visits.{has_before, over, for_each-rows}

abbrev pub results_prefix : Text
results_prefix = results_bucket ++ codes "/"

stored-rows :
    (p k raw : Text) (items : List (Text × Result Text))
    → stored (p ++ k) items ≡ found raw
    → Among (k, ok raw) (rows p items)
stored-rows p k raw [] h = cc
stored-rows p k raw ((j, ok v) ∷ items) h = ground (
  arith,
  text_eq_iff j (p ++ k),
  drop_prefix-append p k,
  Option-cases (drop_prefix j p),
  stored-rows p k raw items,
)
stored-rows p k raw ((j, err text) ∷ items) h =
    ground (arith, Option-cases (drop_prefix j p), stored-rows p k raw items)

module _ {A : Type 0} (codec : Codec A) where
  abbrev pub decoded_item : Result Text → Result A
  decoded_item (ok v) = codec.decode v
  decoded_item (err text) = err text

  -- Each item is decoded to the value in its place.
  abbrev pub Decodes : List (Text × Result Text) → List A → Type 0
  Decodes [] [] = Unit
  Decodes [] (a ∷ rs) = ⊥
  Decodes ((key, item) ∷ items) [] = ⊥
  Decodes ((key, item) ∷ items) (a ∷ rs) = (decoded_item item ≡ ok a) × Decodes items rs

  over-Decodes :
      (context : Text) (items : List (Text × Result Text)) (out rs : List A)
      → Decodes items rs
      → over (collect codec context) items out ≡ (out ++ rs, none)
  over-Decodes context [] out [] d = rw (append-nil out) refl
  over-Decodes context [] out (a ∷ rs) d = absurd d
  over-Decodes context ((key, item) ∷ items) out [] d = absurd d
  over-Decodes context ((key, ok v) ∷ items) out (a ∷ rs) d = rw d.0 (
      over-Decodes context items (out ++ a ∷ []) rs d.1
      ∙ ap (λ (l : List A). (l, none)) (append_assoc out (a ∷ []) rs))
  over-Decodes context ((key, err text) ∷ items) out (a ∷ rs) d = cc

  over-collect :
      (context : Text) (items : List (Text × Result Text)) (out rs : List A)
      → listed codec (over (collect codec context) items out) ≡ value rs
      → (rest : List A) × (rs ≡ out ++ rest) × Decodes items rest
  over-collect context [] out rs h = ([], cc (h, append-nil out), tt)
  over-collect context ((key, ok v) ∷ items) out rs h = elim (Result-cases (codec.decode v)) [
    | inl (a, e) ↦
        let r = over-collect context items (out ++ a ∷ []) rs (rw e at h) in
        (a ∷ r.0, r.1 ∙ append_assoc out (a ∷ []) r.0, (e, r.2))
    | inr (text, e) ↦ cc (h, e)
  ]
  over-collect context ((key, err text) ∷ items) out rs h = cc

Among-Decodes :
    {A : Type 0} (codec : Codec A) (key raw : Text) (a : A) (items : List (Text × Result Text))
    (rs : List A)
    → codec.decode raw ≡ ok a
    → Decodes codec items rs
    → Among (key, ok raw) items
    → Among a rs
Among-Decodes codec key raw a [] rs e d m = absurd m
Among-Decodes codec key raw a ((k, item) ∷ items) [] e d m = absurd d
Among-Decodes codec key raw a ((k, item) ∷ items) (b ∷ rs) e d m =
    ground (arith, Among-Decodes codec key raw a items rs e)

module _ {Db J : Type 0} (badger : Badger Db) (codec : Codec (ScanResult ℕ J)) where
  -- Where no key of the database comes before those of the results, the list has a value exactly when
  -- every stored result is decoded, and the value is then all of them in the order of their keys.
  pub list_results_iff :
      (db : Db) (rs : List (ScanResult ℕ J))
      → IsLawful badger
      → has_before results_prefix (badger.items db) ≡ false
      → (list_results badger codec db ≡ value rs)
        ↔ Decodes codec (rows results_prefix (badger.items db)) rs
  unfolding list_results
  list_results_iff db rs lawful none_before =
      rw
        (
          for_each-rows (collect codec (codes "decode result: ")) results_bucket (badger.items db)
              [] refl (lawful.items-IsSorted db),
          none_before,
        )
        (
          λ h.
              (let r =
                  over-collect codec (codes "decode result: ")
                    (rows results_prefix (badger.items db)) [] rs h in
                rw r.1 r.2),
          λ d.
              rw
                (over-Decodes codec (codes "decode result: ")
                  (rows results_prefix (badger.items db)) [] rs d)
                refl,
        )

  save-put :
      (now : ℕ) (suffix : Text) (result : ScanResult ℕ J) (db after : Db)
      → save badger codec now suffix result db ≡ (after, none)
      → (raw : Text) × (codec.encode result ≡ ok raw)
        × (put badger results_bucket (result_key now result.scanner_name suffix) raw db
            ≡ (after, none))
  unfolding save
  save-put now suffix result db after h = elim (Result-cases (codec.encode result)) [
    | inl (raw, e) ↦ (raw, e, rw e at h)
    | inr (text, e) ↦ cc (h, e)
  ]

  -- A result that was saved without an error is in every list that is given after any later saves, each
  -- at another time or with another random suffix of the same length, if the database is lawful and has
  -- no key before those of the results when it is listed, and the result is decoded as it was encoded.
  pub list_results-save :
      (now : ℕ) (suffix : Text) (result : ScanResult ℕ J) (db after : Db) (later : List (Saving J))
      (rs : List (ScanResult ℕ J))
      → IsLawful badger
      → ((raw : Text) → codec.encode result ≡ ok raw → codec.decode raw ≡ ok result)
      → save badger codec now suffix result db ≡ (after, none)
      → All (Differs now suffix) later
      → has_before results_prefix (badger.items (save_all badger codec later after)) ≡ false
      → list_results badger codec (save_all badger codec later after) ≡ value rs
      → Among result rs
  unfolding make_key
  list_results-save now suffix result db after later rs lawful faithful saved differ none_before l =
      let w = save-put now suffix result db after saved in
      let key = result_key now result.scanner_name suffix in
      let last = save_all badger codec later after in
      let still : stored (make_key results_bucket key) (badger.items last) ≡ found w.0 =
        lawful.stored-items results_bucket key last
        ∙ get-save_all badger codec now result.scanner_name suffix later after lawful differ
        ∙ sym (lawful.stored-items results_bucket key after)
        ∙ stored-put badger results_bucket key w.0 db after lawful w.2 in
      Among-Decodes codec key w.0 result (rows results_prefix (badger.items last)) rs
        (faithful w.0 w.1) ((list_results_iff last rs lawful none_before).0 l)
        (stored-rows results_prefix key w.0 (badger.items last) still)
