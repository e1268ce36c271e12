-- ===== src/Number/RoundTrip.antt =====
-- `Number` reads back what Go prints.
use ar_csent.Prelude.{
  ◌∙◌, ap, ℕ, zero, suc, ◌+◌, ◌/◌, ◌%◌, ◌≡◌, refl, ◌≢◌, ◌≤◌, ◌<◌, true, false, [], ◌∷◌, All, arith,
  ℤ, pos, negsuc, is_negative, abs, Bool,
}
use ar_csent.Text.{Text, is_space, text_eq}
use ar_csent.Text.Trim.{NoSpace, trim_of_NoSpace}
use ar_csent.Number.{
  decimal, digits_value, span_digits, to_number, unsigned, fraction, exponent, signed, prefixed,
}
use ar_csent.Number.Print.{digits_from, show_nat, show_int}

abbrev pub Digits : Text → Type 0
Digits = All (λ c. (b'0' ≤ c) × (c ≤ b'9'))

digits_from-Digits : (f n : ℕ) (out : Text) → Digits out → Digits (digits_from f n out)
unfolding digits_from
digits_from-Digits zero n out h = h
digits_from-Digits (suc f) n out h =
    ground (arith, digits_from-Digits f (n / 10) ((b'0' + n % 10) ∷ out))

digits_from-ne-nil : (f n : ℕ) (out : Text) → out ≢ [] → digits_from f n out ≢ []
unfolding digits_from
digits_from-ne-nil zero n out h = h
digits_from-ne-nil (suc f) n out h =
    ground (arith, digits_from-ne-nil f (n / 10) ((b'0' + n % 10) ∷ out))

digits_value-digits_from :
    (f n : ℕ) (out : Text) → n < f → digits_value 0 (digits_from f n out) ≡ digits_value n out
unfolding digits_from digits_value
digits_value-digits_from zero n out h = absurd (omega arith)
digits_value-digits_from (suc f) n out h =
    ground (arith, digits_value-digits_from f (n / 10) ((b'0' + n % 10) ∷ out))

pub digits_value-show_nat : (n : ℕ) → digits_value 0 (show_nat n) ≡ n
unfolding show_nat
digits_value-show_nat n =
    digits_value-digits_from (suc n) n [] (omega arith) ∙ (unfold digits_value in refl)

pub show_nat-Digits : (n : ℕ) → Digits (show_nat n)
unfolding show_nat
show_nat-Digits n = digits_from-Digits (suc n) n [] tt

cons-ne-nil : (c : ℕ) (s : Text) → ◌≢◌ {A = Text} (c ∷ s) []
cons-ne-nil c s = cc

show_nat-ne-nil : (n : ℕ) → show_nat n ≢ []
unfolding show_nat digits_from
show_nat-ne-nil n =
    ground
      (arith, digits_from-ne-nil n (n / 10) ((b'0' + n % 10) ∷ []) (cons-ne-nil (b'0' + n % 10) []))

span_digits_of_Digits : (s : Text) → Digits s → span_digits s ≡ (s, [])
unfolding span_digits
span_digits_of_Digits [] h = refl
span_digits_of_Digits (c ∷ s) h = ground (arith, span_digits_of_Digits s h.1)

unsigned_of_Digits :
    (neg : Bool) (s : Text)
    → Digits s
    → s ≢ []
    → unsigned neg s ≡ decimal neg (digits_value 0 s) 0 0
unfolding unsigned fraction exponent text_eq
unsigned_of_Digits neg [] h ne = absurd (ne refl)
unsigned_of_Digits neg (c ∷ s) h ne = ground (arith, span_digits_of_Digits (c ∷ s) h)

signed_of_Digits : (s : Text) → Digits s → s ≢ [] → signed s ≡ decimal false (digits_value 0 s) 0 0
unfolding signed
signed_of_Digits [] h ne = absurd (ne refl)
signed_of_Digits (c ∷ s) h ne = ground (arith, unsigned_of_Digits false (c ∷ s) h ne)

prefixed_of_Digits : (c : ℕ) (s : Text) → Digits s → prefixed (c ∷ s) ≡ signed (c ∷ s)
unfolding prefixed
prefixed_of_Digits c [] h = refl
prefixed_of_Digits c (x ∷ s) h = ground arith

signed-minus :
    (s : Text) → Digits s → s ≢ [] → signed (b'-' ∷ s) ≡ decimal true (digits_value 0 s) 0 0
unfolding signed
signed-minus s h ne = unsigned_of_Digits true s h ne

-- What Go prints holds no white space.
Digits-NoSpace : (s : Text) → Digits s → NoSpace s
unfolding is_space
Digits-NoSpace [] h = tt
Digits-NoSpace (c ∷ s) h = (ground arith, Digits-NoSpace s h.1)

pub show_int-NoSpace : (z : ℤ) → NoSpace (show_int z)
unfolding show_int is_space
show_int-NoSpace (pos n) = Digits-NoSpace _ (show_nat-Digits n)
show_int-NoSpace (negsuc n) = (refl, Digits-NoSpace _ (show_nat-Digits (suc n)))

pub show_int-ne-nil : (z : ℤ) → show_int z ≢ []
unfolding show_int
show_int-ne-nil (pos n) = show_nat-ne-nil n
show_int-ne-nil (negsuc n) = cc

prefixed-show_int : (z : ℤ) → prefixed (show_int z) ≡ decimal (is_negative z) (abs z) 0 0
unfolding show_int
prefixed-show_int (pos n) =
    on_digits (show_nat n) (digits_value-show_nat n) (show_nat-Digits n) (show_nat-ne-nil n)
  where
    on_digits :
        (s : Text) → digits_value 0 s ≡ n → Digits s → s ≢ [] → prefixed s ≡ decimal false n 0 0
    on_digits [] v h ne = absurd (ne refl)
    on_digits (c ∷ s) v h ne =
        prefixed_of_Digits c s h.1 ∙ signed_of_Digits (c ∷ s) h ne ∙ ap (λ k. decimal false k 0 0) v
prefixed-show_int (negsuc n) =
    prefixed_of_Digits b'-' (show_nat (suc n)) (show_nat-Digits (suc n))
    ∙ signed-minus (show_nat (suc n)) (show_nat-Digits (suc n)) (show_nat-ne-nil (suc n))
    ∙ ap (λ k. decimal true k 0 0) (digits_value-show_nat (suc n))

-- Every integer that Go prints by `%v` is read back by `Number` with its sign and size.
pub to_number-show_int : (z : ℤ) → to_number (show_int z) ≡ decimal (is_negative z) (abs z) 0 0
to_number-show_int z =
    unfold to_number in rw (trim_of_NoSpace (show_int z) (show_int-NoSpace z)) (prefixed-show_int z)
