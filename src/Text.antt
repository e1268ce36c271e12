-- ===== src/Text.antt =====
-- Texts of the web client and of the daemon, as lists of code points, with the operations of
-- JavaScript's strings that the client uses: `===`, `trim`, `split`, `startsWith`, `toLowerCase`.
pub mod Equality
pub mod Trim
pub mod Split
use Prim.Native.Char.{code}
use ar_csent.Prelude.{
  ℕ, ◌+◌, Bool, true, false, ◌&&◌, ◌||◌, List, [], ◌∷◌, String, map, leb, ◌==◌, if◌then◌else◌,
  is_empty,
}

abbrev pub Text : Type 0
Text = List ℕ

-- The code points of a literal.
abbrev pub codes : String → Text
codes String.[] = []
codes (String.◌∷◌ c s) = code c ∷ codes s

-- `s === t`
unfoldable pub text_eq : Text → Text → Bool
text_eq [] [] = true
text_eq [] (y ∷ t) = false
text_eq (x ∷ s) [] = false
text_eq (x ∷ s) (y ∷ t) = x == y && text_eq s t

-- JavaScript's white space and line terminators: what `trim` removes and `\s` matches.
unfoldable pub is_space : ℕ → Bool
is_space c =
    (leb 9 c && leb c 13)
    || c == 32
    || c == 0xa0
    || c == 0x1680
    || (leb 0x2000 c && leb c 0x200a)
    || c == 0x2028
    || c == 0x2029
    || c == 0x202f
    || c == 0x205f
    || c == 0x3000
    || c == 0xfeff

unfoldable pub trim_start : Text → Text
trim_start [] = []
trim_start (x ∷ s) = let rest = trim_start s in if is_space x then rest else x ∷ s

unfoldable pub trim_end : Text → Text
trim_end [] = []
trim_end (x ∷ s) = let rest = trim_end s in if is_space x && is_empty rest then [] else x ∷ rest

unfoldable pub trim : Text → Text
unfolding trim_start trim_end is_space
trim s = trim_end (trim_start s)

-- Puts a character in front of the first piece.
abbrev pub push_front : ℕ → List Text → List Text
push_front x [] = (x ∷ []) ∷ []
push_front x (w ∷ ws) = (x ∷ w) ∷ ws

-- `s.split(c)` for a separator of one character.
unfoldable pub split_char : ℕ → Text → List Text
split_char c [] = [] ∷ []
split_char c (x ∷ s) = let rest = split_char c s in if x == c then [] ∷ rest else push_front x rest

-- `s.split(/\s+/)`; the flag says that the character before was white space.
unfoldable pub split_spaces_from : Bool → Text → List Text
split_spaces_from gap [] = [] ∷ []
split_spaces_from gap (x ∷ s) =
    let rest = split_spaces_from (is_space x) s in
    if is_space x then (if gap then rest else [] ∷ rest) else push_front x rest

unfoldable pub split_spaces : Text → List Text
unfolding split_spaces_from is_space
split_spaces s = split_spaces_from false s

unfoldable pub starts_with : Text → Text → Bool
starts_with s [] = true
starts_with [] (y ∷ p) = false
starts_with (x ∷ s) (y ∷ p) = x == y && starts_with s p

-- `toLowerCase` on one code point, exact where the result is an ASCII letter: A to Z and the
-- Kelvin sign. Other letters are left as they are.
unfoldable pub to_lower : ℕ → ℕ
to_lower c = if leb b'A' c && leb c b'Z' then c + 32 else if c == 0x212a then b'k' else c

unfoldable pub to_lower_case : Text → Text
unfolding to_lower
to_lower_case s = map to_lower s
