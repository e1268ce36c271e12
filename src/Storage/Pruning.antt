-- ===== src/Storage/Pruning.antt =====
-- internal/storage/results.go and internal/detection/baseline.go: what `PruneOlderThan` leaves in the
-- database.
use mathlib.Core.Path.{subst}
use ar_csent.Prelude.{
  sym, ℕ, ◌≡◌, refl, inl, inr, Bool, false, ◌||◌, ◌&&◌, none, some, List, [], ◌∷◌, ◌++◌, is_empty,
  if◌then◌else◌, Bool-cases, Option-cases, arith, ◌∙◌,
}
use ar_csent.Text.{Text, codes, text_eq}
use ar_csent.Text.Equality.{text_eq_iff}
use ar_csent.Api.{Result, ok, err}
use ar_csent.GoStrings.{drop_prefix}
use ar_csent.Results.{ScanResult}
use ar_csent.Detection.Baseline.{Baseline}
use ar_csent.Storage.{missing, Badger, Run, make_key, delete, proceed, for_each}
use ar_csent.Storage.Order.{Behind, IsSorted, text_lt_irrefl, drop_prefix-append, eq_of_drop_prefix}
use ar_csent.Storage.Stored.{stored, IsLawful, rows, Result-cases}
use ar_csent.Storage.Buckets.{
  Codec, is_old, results_bucket, baseline_bucket, prune_results, prune_baselines,
}
use ar_csent.Storage.Listing.{decoded_item}
use ar_csent.Storage.Pruned.{remains, Pruned, remains-Pruned}
use ar_csent.Storage.Visits.{has_before, over, for_each-rows}

proceed-none :
    {S : Type 0} (fn : Text → Text → S → Run S) (next : S → Run S) (r : Run S) (after : S)
    → proceed fn next r ≡ (after, none)
    → (s : S) × (r ≡ (s, none)) × (next s ≡ (after, none))
proceed-none fn next (s, none) after h = (s, refl, h)
proceed-none fn next (s, some e) after h = cc

module _ {Db A : Type 0} (badger : Badger Db) (codec : Codec A) (time : A → ℕ) (bucket : Text)
    (cutoff : ℕ) where
  abbrev expire : Text → Text → Db → Run Db
  expire key v db =
      if is_old codec time cutoff (codec.decode v) then delete badger bucket key db else (db, none)

  -- Whether an item with the key is deleted.
  abbrev deletes : Text → List (Text × Result Text) → Bool
  deletes k [] = false
  deletes k ((key, item) ∷ rest) =
      (text_eq (make_key bucket key) k && is_old codec time cutoff (decoded_item codec item))
      || deletes k rest

  get-expire :
      (key v other j : Text) (db after : Db)
      → IsLawful badger
      → expire key v db ≡ (after, none)
      → badger.get (make_key other j) after ≡ (
          if text_eq (make_key bucket key) (make_key other j)
            && is_old codec time cutoff (codec.decode v)
          then missing
          else badger.get (make_key other j) db)
  unfolding delete
  get-expire key v other j db after lawful h = ground (
    arith,
    Bool-cases (is_old codec time cutoff (codec.decode v)),
    Bool-cases (is_empty bucket || is_empty key),
    Result-cases (badger.delete (make_key bucket key) db),
    lawful.get-delete (make_key bucket key) other j db after,
  )

  get-over :
      (items : List (Text × Result Text)) (other j : Text) (db after : Db)
      → IsLawful badger
      → over expire items db ≡ (after, none)
      → badger.get (make_key other j) after
        ≡ (if deletes (make_key other j) items then missing else badger.get (make_key other j) db)
  get-over [] other j db after lawful h = ground arith
  get-over ((key, err text) ∷ items) other j db after lawful h = cc
  get-over ((key, ok v) ∷ items) other j db after lawful h =
      let w = proceed-none expire (over expire items) (expire key v db) after h in
      ground (
        arith,
        get-over items other j w.0 after lawful w.2,
        get-expire key v other j db w.0 lawful w.1,
      )

  deletes-Behind :
      (k : Text) (items : List (Text × Result Text))
      → Behind k items
      → deletes k (rows (bucket ++ codes "/") items) ≡ false
  unfolding make_key
  deletes-Behind k [] b = refl
  deletes-Behind k ((c, item) ∷ items) b =
      elim (Option-cases (drop_prefix c (bucket ++ codes "/"))) [
        | inl e ↦ rw (e, rows) (deletes-Behind k items b.1)
        | inr (key, e) ↦
            rw (e, rows)
              (ground (
                arith,
                eq_of_drop_prefix (bucket ++ codes "/") c key e,
                text_eq_iff c k,
                text_lt_irrefl k,
                b.0,
                deletes-Behind k items b.1,
              ))
      ]

  remains-item :
      (c key' key : Text) (item : Result Text) (items : List (Text × Result Text))
      → c ≡ make_key bucket key'
      → deletes c (rows (bucket ++ codes "/") items) ≡ false
      → (if deletes (make_key bucket key) (rows (bucket ++ codes "/") items)
          then missing
          else stored (make_key bucket key) items)
        ≡ remains codec time cutoff (stored (make_key bucket key) items)
      → (if deletes (make_key bucket key) ((key', item) ∷ rows (bucket ++ codes "/") items)
          then missing
          else stored (make_key bucket key) ((c, item) ∷ items))
        ≡ remains codec time cutoff (stored (make_key bucket key) ((c, item) ∷ items))
  remains-item c key' key (ok v) items same behind ih =
      ground (arith, text_eq_iff c (make_key bucket key), same, behind, ih)
  remains-item c key' key (err text) items same behind ih =
      ground (arith, text_eq_iff c (make_key bucket key), same, behind, ih)

  remains-stored :
      (key : Text) (items : List (Text × Result Text))
      → IsSorted items
      → (if deletes (make_key bucket key) (rows (bucket ++ codes "/") items)
          then missing
          else stored (make_key bucket key) items)
        ≡ remains codec time cutoff (stored (make_key bucket key) items)
  unfolding make_key
  remains-stored key [] sorted = refl
  remains-stored key ((c, item) ∷ items) sorted =
      elim (Option-cases (drop_prefix c (bucket ++ codes "/"))) [
        | inl e ↦
            rw (e, rows)
              (ground (
                arith,
                text_eq_iff c (bucket ++ codes "/" ++ key),
                drop_prefix-append (bucket ++ codes "/") key,
                e,
                remains-stored key items sorted.1,
              ))
        | inr (key', e) ↦
            rw (e, rows)
              (remains-item c key' key item items (eq_of_drop_prefix (bucket ++ codes "/") c key' e)
                (deletes-Behind c items sorted.0) (remains-stored key items sorted.1))
      ]

  deletes-foreign :
      (k : Text) (items : List (Text × Result Text))
      → drop_prefix k (bucket ++ codes "/") ≡ none
      → deletes k items ≡ false
  unfolding make_key
  deletes-foreign k [] h = refl
  deletes-foreign k ((key, item) ∷ items) h = ground (
    arith,
    text_eq_iff (bucket ++ codes "/" ++ key) k,
    drop_prefix-append (bucket ++ codes "/") key,
    deletes-foreign k items h,
  )

  -- What a pruning without an error leaves, in both cases of a key.
  get-for_each :
      (db after : Db)
      → IsLawful badger
      → is_empty bucket ≡ false
      → has_before (bucket ++ codes "/") (badger.items db) ≡ false
      → for_each expire bucket (badger.items db) db ≡ (after, none)
      → ((key : Text)
          → Pruned codec time cutoff
              (badger.get (make_key bucket key) db)
              (badger.get (make_key bucket key) after))
        × ((other key : Text)
            → drop_prefix (make_key other key) (bucket ++ codes "/") ≡ none
            → badger.get (make_key other key) after ≡ badger.get (make_key other key) db)
  get-for_each db after lawful named none_before h =
      let run : over expire (rows (bucket ++ codes "/") (badger.items db)) db ≡ (after, none) =
        rw
          (
            for_each-rows expire bucket (badger.items db) db named (lawful.items-IsSorted db),
            none_before,
          )
          at h in
      (
        λ key.
            subst (Pruned codec time cutoff (badger.get (make_key bucket key) db))
              (sym (
                get-over (rows (bucket ++ codes "/") (badger.items db)) bucket key db after lawful
                  run
                ∙ (rw (← lawful.stored-items bucket key db)
                    (remains-stored key (badger.items db) (lawful.items-IsSorted db)))))
              (remains-Pruned codec time cutoff (badger.get (make_key bucket key) db)),
        λ other key e.
            get-over (rows (bucket ++ codes "/") (badger.items db)) other key db after lawful run
            ∙ rw
                (deletes-foreign (make_key other key) (rows (bucket ++ codes "/") (badger.items db))
                  e)
                refl,
      )

module _ {Db J : Type 0} (badger : Badger Db) (codec : Codec (ScanResult ℕ J)) (cutoff : ℕ) where
  -- A pruning of the results that meets no error, in a lawful database without a key before theirs,
  -- removes exactly the values under keys of the results that are decoded and have finished before the
  -- cutoff at a time that is not the zero time; keys of other buckets keep what they have.
  pub get-prune_results :
      (db after : Db)
      → IsLawful badger
      → has_before (results_bucket ++ codes "/") (badger.items db) ≡ false
      → prune_results badger codec cutoff db ≡ (after, none)
      → ((key : Text)
          → Pruned codec
              (λ res. res.finished_at)
              cutoff
              (badger.get (make_key results_bucket key) db)
              (badger.get (make_key results_bucket key) after))
        × ((other key : Text)
            → drop_prefix (make_key other key) (results_bucket ++ codes "/") ≡ none
            → badger.get (make_key other key) after ≡ badger.get (make_key other key) db)
  unfolding prune_results
  get-prune_results db after lawful none_before h =
      get-for_each badger codec (λ res. res.finished_at) results_bucket cutoff db after lawful refl
        none_before h

module _ {Db F : Type 0} (badger : Badger Db) (codec : Codec (Baseline F)) (cutoff : ℕ) where
  -- The same for the baselines and the times of their updates.
  pub get-prune_baselines :
      (db after : Db)
      → IsLawful badger
      → has_before (baseline_bucket ++ codes "/") (badger.items db) ≡ false
      → prune_baselines badger codec cutoff db ≡ (after, none)
      → ((key : Text)
          → Pruned codec
              (λ b. b.updated_at)
              cutoff
              (badger.get (make_key baseline_bucket key) db)
              (badger.get (make_key baseline_bucket key) after))
        × ((other key : Text)
            → drop_prefix (make_key other key) (baseline_bucket ++ codes "/") ≡ none
            → badger.get (make_key other key) after ≡ badger.get (make_key other key) db)
  unfolding prune_baselines
  get-prune_baselines db after lawful none_before h =
      get-for_each badger codec (λ b. b.updated_at) baseline_bucket cutoff db after lawful refl
        none_before h
