-- ===== src/GoStrings.antt =====
-- What the daemon uses of Go's package strings: `TrimSpace` and `TrimPrefix`.
use ar_csent.Prelude.{
  ℕ, Bool, ◌&&◌, ◌||◌, Option, none, some, [], ◌∷◌, leb, ◌==◌, is_empty, if◌then◌else◌,
}
use ar_csent.Text.{Text}

-- `unicode.IsSpace`
unfoldable pub is_white_space : ℕ → Bool
is_white_space c =
    (leb 9 c && leb c 13)
    || c == 32
    || c == 0x85
    || c == 0xa0
    || c == 0x1680
    || (leb 0x2000 c && leb c 0x200a)
    || c == 0x2028
    || c == 0x2029
    || c == 0x202f
    || c == 0x205f
    || c == 0x3000

trim_left : Text → Text
trim_left [] = []
trim_left (c ∷ s) = let rest = trim_left s in if is_white_space c then rest else c ∷ s

trim_right : Text → Text
trim_right [] = []
trim_right (c ∷ s) =
    let rest = trim_right s in if is_white_space c && is_empty rest then [] else c ∷ rest

unfoldable pub trim_space : Text → Text
unfolding trim_left trim_right is_white_space
trim_space s = trim_right (trim_left s)

-- `strings.TrimPrefix`
unfoldable pub drop_prefix : Text → Text → Option Text
drop_prefix s [] = some s
drop_prefix [] (y ∷ p) = none
drop_prefix (x ∷ s) (y ∷ p) = if x == y then drop_prefix s p else none

unfoldable pub trim_prefix : Text → Text → Text
unfolding drop_prefix
trim_prefix s prefix = elim (drop_prefix s prefix) [ none ↦ s | some rest ↦ rest ]
