-- ===== src/Text/Trim.antt =====
-- What `trim` leaves: a text that begins and ends in a word stays as it is.
use ar_csent.Prelude.{◌≡◌, refl, ◌≢◌, false, [], ◌∷◌, All, append_assoc, arith, ◌++◌, is_empty}
use ar_csent.Text.{Text, is_space, trim_end, trim}

-- No character is white space.
abbrev pub NoSpace : Text → Type 0
NoSpace = All (λ c. is_space c ≡ false)

trim_end_of_NoSpace : (s : Text) → NoSpace s → trim_end s ≡ s
unfolding trim_end
trim_end_of_NoSpace [] h = refl
trim_end_of_NoSpace (x ∷ s) h = rw (h.0, trim_end_of_NoSpace s h.1)

is_empty-append : (s w : Text) → w ≢ [] → is_empty (s ++ w) ≡ false
is_empty-append [] w ne = ground arith
is_empty-append (x ∷ s) w ne = refl

trim_end-append : (s w : Text) → NoSpace w → w ≢ [] → trim_end (s ++ w) ≡ s ++ w
unfolding trim_end
trim_end-append [] w h ne = trim_end_of_NoSpace w h
trim_end-append (x ∷ s) w h ne = ground (arith, trim_end-append s w h ne, is_empty-append s w ne)

pub trim_of_NoSpace : (s : Text) → NoSpace s → trim s ≡ s
unfolding trim
trim_of_NoSpace [] h = refl
trim_of_NoSpace (x ∷ s) h = rw h.0 (trim_end_of_NoSpace (x ∷ s) h)

-- A text between two words, the first of them not empty.
pub trim-append :
    (v s w : Text) → NoSpace v → v ≢ [] → NoSpace w → w ≢ [] → trim (v ++ (s ++ w)) ≡ v ++ (s ++ w)
unfolding trim
trim-append [] s w hv nv hw nw = absurd (nv refl)
trim-append (x ∷ v) s w hv nv hw nw =
    rw (hv.0, ← append_assoc v s w) (trim_end-append (x ∷ (v ++ s)) w hw nw)
