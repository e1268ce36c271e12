-- ===== src/Storage/Visits.antt =====
-- internal/storage/badger.go: what `ForEach` visits of a database whose items are in order.
use ar_csent.Prelude.{
  ◌≡◌, refl, inl, inr, Bool, true, false, ◌||◌, none, some, List, [], ◌∷◌, ◌++◌, is_empty,
  if◌then◌else◌, Bool-cases, Option-cases, arith,
}
use ar_csent.Text.{Text, codes}
use ar_csent.Api.{Result}
use ar_csent.GoStrings.{drop_prefix}
use ar_csent.Storage.{Run, proceed, read_item, visit, for_each}
use ar_csent.Storage.Order.{
  text_lt, Behind, IsSorted, text_lt_trans, drop_prefix-before, drop_prefix-behind,
}
use ar_csent.Storage.Stored.{rows}

-- Whether the database has a key before the prefix.
abbrev pub has_before : Text → List (Text × Result Text) → Bool
has_before prefix [] = false
has_before prefix ((k, item) ∷ items) = text_lt k prefix || has_before prefix items

rows-Behind :
    (p k : Text) (items : List (Text × Result Text))
    → text_lt k p ≡ false
    → drop_prefix k p ≡ none
    → Behind k items
    → rows p items ≡ []
rows-Behind p k [] h e b = refl
rows-Behind p k ((c, item) ∷ items) h e b =
    rw (drop_prefix-behind p k c h e b.0, rows) (rows-Behind p k items h e b.1)

before-Behind :
    (p k : Text) (items : List (Text × Result Text))
    → Behind k items
    → has_before p items ≡ true
    → text_lt k p ≡ true
before-Behind p k [] b h = cc
before-Behind p k ((j, item) ∷ items) b h =
    ground (arith, text_lt_trans k j p b.0, before-Behind p k items b.1)

module _ {S : Type 0} (fn : Text → Text → S → Run S) where
  -- The callback on items one after the other, up to its first error.
  abbrev pub over : List (Text × Result Text) → S → Run S
  over [] s = (s, none)
  over ((key, item) ∷ rest) s = proceed fn (over rest) (read_item fn key item s)

  over-proceed :
      (f g : S → Run S) → ((s : S) → f s ≡ g s) → (r : Run S) → proceed fn f r ≡ proceed fn g r
  over-proceed f g h (s, none) = h s
  over-proceed f g h (s, some e) = refl

  visit-rows :
      (p : Text) (items : List (Text × Result Text)) (s : S)
      → IsSorted items
      → has_before p items ≡ false
      → visit fn p items s ≡ over (rows p items) s
  unfolding visit
  visit-rows p [] s sorted h = refl
  visit-rows p ((k, item) ∷ items) s sorted h = elim (Option-cases (drop_prefix k p)) [
    | inl e ↦ rw (e, visit, rows) (rw (rows-Behind p k items (ground arith) e sorted.0) refl)
    | inr (key, e) ↦
        rw (e, visit, rows)
          (over-proceed (visit fn p items) (over (rows p items))
            (λ t. visit-rows p items t sorted.1 (ground arith)) (read_item fn key item s))
  ]

  visit-before :
      (p : Text) (items : List (Text × Result Text)) (s : S)
      → IsSorted items
      → has_before p items ≡ true
      → visit fn p items s ≡ (s, none)
  unfolding visit
  visit-before p [] s sorted h = refl
  visit-before p ((k, item) ∷ items) s sorted h =
      rw (drop_prefix-before p k (ground (arith, before-Behind p k items sorted.0)), visit) refl

  -- Over items in the order of their keys, the visit of a named bucket gives the callback every item of
  -- the bucket, in that order and up to the callback's first error, where no key comes before the
  -- bucket's prefix; otherwise it gives the callback none, whatever the bucket holds.
  pub for_each-rows :
      (bucket : Text) (items : List (Text × Result Text)) (s : S)
      → is_empty bucket ≡ false
      → IsSorted items
      → for_each fn bucket items s ≡ (
          if has_before (bucket ++ codes "/") items
          then (s, none)
          else over (rows (bucket ++ codes "/") items) s)
  unfolding for_each
  for_each-rows bucket items s named sorted =
      elim (Bool-cases (has_before (bucket ++ codes "/") items)) [
        | inl e ↦ rw (named, e) (visit-before (bucket ++ codes "/") items s sorted e)
        | inr e ↦ rw (named, e) (visit-rows (bucket ++ codes "/") items s sorted e)
      ]
