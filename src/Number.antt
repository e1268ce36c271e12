-- ===== src/Number.antt =====
-- `Number(text)` of JavaScript and `Number.isFinite`, and the way Go prints an `int` by `%v`.
--
-- A value is kept as the exact number that the text denotes; the double that JavaScript stores is
-- the one nearest to it, and `is_finite` says whether that double is finite.
pub mod Print
pub mod RoundTrip
use ar_csent.Prelude.{
  ℕ, zero, suc, ◌+◌, ◌-◌, ◌*◌, ◌^◌, Bool, true, false, not, ◌&&◌, ◌||◌, Option, none, some, List,
  [], ◌∷◌, ◌++◌, ltb, leb, ◌==◌, if◌then◌else◌, length, is_empty, all,
}
use ar_csent.Text.{Text, codes, text_eq, trim}

-- `decimal neg m up down` is ± m · 10 ^ up / 10 ^ down.
pub data Number : Type 0 where
  nan : Number
  infinity : Bool → Number
  decimal : Bool → ℕ → ℕ → ℕ → Number

abbrev pub is_digit : ℕ → Bool
is_digit c = leb b'0' c && leb c b'9'

-- The number that digits spell behind `acc`.
unfoldable pub digits_value : ℕ → Text → ℕ
digits_value acc [] = acc
digits_value acc (c ∷ s) = digits_value (10 * acc + (c - b'0')) s

-- The digits at the front of a text, and what follows them.
unfoldable pub span_digits : Text → Text × Text
span_digits [] = ([], [])
span_digits (c ∷ s) =
    let rest = span_digits s in if is_digit c then (c ∷ rest.0, rest.1) else ([], c ∷ s)

-- A digit of a base up to 16, or `none`.
abbrev radix_digit : ℕ → ℕ → Option ℕ
radix_digit base c =
    if is_digit c && ltb (c - b'0') base
    then some (c - b'0')
    else if leb b'a' c && leb c b'f' && ltb (c - b'a' + 10) base
    then some (c - b'a' + 10)
    else if leb b'A' c && leb c b'F' && ltb (c - b'A' + 10) base
    then some (c - b'A' + 10)
    else none

radix_value : ℕ → ℕ → Text → Number
radix_value base acc [] = decimal false acc 0 0
radix_value base acc (c ∷ s) = elim (radix_digit base c) [
  | none ↦ nan
  | some d ↦ radix_value base (base * acc + d) s
]

-- `0x…`, `0o…` and `0b…`: at least one digit, and no sign.
abbrev radix_literal : ℕ → Text → Number
radix_literal base s = if is_empty s then nan else radix_value base 0 s

-- The digits of an exponent, behind its sign.
exponent_digits : Bool → Bool → ℕ → ℕ → Text → Number
exponent_digits neg down_sign m down s =
    if is_empty s || not (all is_digit s)
    then nan
    else if down_sign
    then decimal neg m 0 (down + digits_value 0 s)
    else decimal neg m (digits_value 0 s) down

exponent_sign : Bool → ℕ → ℕ → Text → Number
exponent_sign neg m down [] = nan
exponent_sign neg m down (c ∷ s) =
    if c == b'-'
    then exponent_digits neg true m down s
    else if c == b'+'
    then exponent_digits neg false m down s
    else exponent_digits neg false m down (c ∷ s)

-- What may follow the digits: nothing, or an exponent.
exponent : Bool → ℕ → ℕ → Text → Number
exponent neg m down [] = decimal neg m 0 down
exponent neg m down (c ∷ s) = if c == b'e' || c == b'E' then exponent_sign neg m down s else nan

fraction_digits : Bool → Text → Text × Text → Number
fraction_digits neg whole (part, rest) =
    if is_empty whole && is_empty part
    then nan
    else exponent neg (digits_value 0 (whole ++ part)) (length part) rest

fraction : Bool → Text × Text → Number
fraction neg (whole, []) = if is_empty whole then nan else exponent neg (digits_value 0 whole) 0 []
fraction neg (whole, c ∷ s) =
    if c == b'.'
    then fraction_digits neg whole (span_digits s)
    else if is_empty whole
    then nan
    else exponent neg (digits_value 0 whole) 0 (c ∷ s)

unsigned : Bool → Text → Number
unsigned neg s = if text_eq s (codes "Infinity") then infinity neg else fraction neg (span_digits s)

signed : Text → Number
signed [] = decimal false 0 0 0
signed (c ∷ s) =
    if c == b'-'
    then unsigned true s
    else if c == b'+'
    then unsigned false s
    else unsigned false (c ∷ s)

prefixed : Text → Number
prefixed (z ∷ x ∷ s) =
    if z == b'0' && (x == b'x' || x == b'X')
    then radix_literal 16 s
    else if z == b'0' && (x == b'o' || x == b'O')
    then radix_literal 8 s
    else if z == b'0' && (x == b'b' || x == b'B')
    then radix_literal 2 s
    else signed (z ∷ x ∷ s)
prefixed s = signed s

-- `Number(text)`
unfoldable pub to_number : Text → Number
unfolding prefixed signed unsigned fraction fraction_digits exponent exponent_sign exponent_digits
    radix_value span_digits digits_value text_eq trim
to_number s = prefixed (trim s)

-- The smallest number whose nearest double is infinite.
overflow : ℕ
overflow = 2 ^ 1024 - 2 ^ 970

-- `Number.isFinite(x)`
unfoldable pub is_finite : Number → Bool
unfolding overflow
is_finite nan = false
is_finite (infinity neg) = false
is_finite (decimal neg m up down) = ltb (m * 10 ^ up) (overflow * 10 ^ down)
