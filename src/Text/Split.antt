-- ===== src/Text/Split.antt =====
-- Splitting takes a joined text apart again.
use ar_csent.Prelude.{◌≡◌, refl, ◌≢◌, true, false, [], ◌∷◌, ◌++◌, All, arith, Bool}
use ar_csent.Text.{Text, is_space, split_char, split_spaces_from, split_spaces}
use ar_csent.Text.Trim.{NoSpace}

-- A separator behind a piece that does not hold it ends that piece.
pub split_char-append :
    (c : _) (w rest : Text)
    → All (λ x. x ≢ c) w
    → split_char c (w ++ c ∷ rest) ≡ w ∷ split_char c rest
unfolding split_char
split_char-append c [] rest h = ground arith
split_char-append c (x ∷ w) rest h = ground (arith, split_char-append c w rest h.1)

split_spaces_from-NoSpace : (gap : Bool) (w : Text) → NoSpace w → split_spaces_from gap w ≡ w ∷ []
unfolding split_spaces_from
split_spaces_from-NoSpace gap [] h = refl
split_spaces_from-NoSpace gap (x ∷ w) h = rw (h.0, split_spaces_from-NoSpace false w h.1)

split_spaces_from-append :
    (v w : Text)
    → NoSpace v
    → NoSpace w
    → split_spaces_from false (v ++ 32 ∷ w) ≡ v ∷ split_spaces_from true w
unfolding split_spaces_from is_space
split_spaces_from-append [] w hv hw = refl
split_spaces_from-append (x ∷ v) w hv hw = rw (hv.0, split_spaces_from-append v w hv.1 hw)

-- Two words with one blank between them are the two pieces.
pub split_spaces-append :
    (v w : Text) → NoSpace v → NoSpace w → split_spaces (v ++ 32 ∷ w) ≡ v ∷ w ∷ []
unfolding split_spaces
split_spaces-append v w hv hw =
    rw (split_spaces_from-append v w hv hw, split_spaces_from-NoSpace true w hw)
