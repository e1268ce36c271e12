-- ===== src/Storage/Order.antt =====
-- The order of a Badger database's keys, byte by byte.
use ar_csent.Prelude.{
  ◌≡◌, refl, Bool, true, false, none, some, List, [], ◌∷◌, ◌++◌, ltb, ◌==◌, if◌then◌else◌, arith,
}
use ar_csent.Text.{Text}
use ar_csent.GoStrings.{drop_prefix}

unfoldable pub text_lt : Text → Text → Bool
text_lt s [] = false
text_lt [] (y ∷ t) = true
text_lt (x ∷ s) (y ∷ t) = if x == y then text_lt s t else ltb x y

module _ {V : Type 0} where
  -- Every key of the items comes after `k`.
  abbrev pub Behind : Text → List (Text × V) → Type 0
  Behind k [] = Unit
  Behind k ((j, item) ∷ items) = (text_lt k j ≡ true) × Behind k items

  abbrev pub IsSorted : List (Text × V) → Type 0
  IsSorted [] = Unit
  IsSorted ((k, item) ∷ items) = Behind k items × IsSorted items

pub text_lt_trans : (s t u : Text) → text_lt s t ≡ true → text_lt t u ≡ true → text_lt s u ≡ true
unfolding text_lt
text_lt_trans s [] u h k = cc
text_lt_trans s (y ∷ t) [] h k = cc
text_lt_trans [] (y ∷ t) (z ∷ u) h k = refl
text_lt_trans (x ∷ s) (y ∷ t) (z ∷ u) h k = ground (arith, text_lt_trans s t u)

pub text_lt_irrefl : (s : Text) → text_lt s s ≡ false
unfolding text_lt
text_lt_irrefl [] = refl
text_lt_irrefl (x ∷ s) = ground (arith, text_lt_irrefl s)

-- What comes before a prefix does not have it.
pub drop_prefix-before : (p k : Text) → text_lt k p ≡ true → drop_prefix k p ≡ none
unfolding text_lt drop_prefix
drop_prefix-before [] k h = cc
drop_prefix-before (y ∷ p) [] h = refl
drop_prefix-before (y ∷ p) (x ∷ k) h = ground (arith, drop_prefix-before p k)

-- What comes after the keys with a prefix is followed by none with it.
pub drop_prefix-behind :
    (p k c : Text)
    → text_lt k p ≡ false
    → drop_prefix k p ≡ none
    → text_lt k c ≡ true
    → drop_prefix c p ≡ none
unfolding text_lt drop_prefix
drop_prefix-behind [] k c h e b = cc
drop_prefix-behind (y ∷ p) [] c h e b = cc
drop_prefix-behind (y ∷ p) (x ∷ k) [] h e b = refl
drop_prefix-behind (y ∷ p) (x ∷ k) (z ∷ c) h e b = ground (arith, drop_prefix-behind p k c)

pub drop_prefix-append : (p s : Text) → drop_prefix (p ++ s) p ≡ some s
unfolding drop_prefix
drop_prefix-append [] s = unfold drop_prefix in refl
drop_prefix-append (y ∷ p) s = ground (arith, drop_prefix-append p s)

pub eq_of_drop_prefix : (p k s : Text) → drop_prefix k p ≡ some s → k ≡ p ++ s
unfolding drop_prefix
eq_of_drop_prefix [] k s h = ground arith
eq_of_drop_prefix (y ∷ p) [] s h = cc
eq_of_drop_prefix (y ∷ p) (x ∷ k) s h = ground (arith, eq_of_drop_prefix p k s)
