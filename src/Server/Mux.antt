-- ===== src/Server/Mux.antt =====
-- Go's `http.ServeMux` as the daemon uses it: a pattern that ends in a slash matches the paths below
-- it, any other pattern its own path, and the longest matching pattern is taken. A path that is not
-- clean is redirected.
use ar_csent.Prelude.{
  Bool, true, false, not, ◌&&◌, ◌||◌, Option, none, some, List, [], ◌∷◌, ltb, ◌==◌, length,
  is_empty, if◌then◌else◌,
}
use ar_csent.Text.{Text, codes, text_eq, starts_with, split_char}

ends_in_slash : Text → Bool
ends_in_slash [] = false
ends_in_slash (c ∷ s) = let rest = ends_in_slash s in if is_empty s then c == b'/' else rest

pattern_matches : Text → Text → Bool
unfolding ends_in_slash starts_with text_eq
pattern_matches pattern path =
    if ends_in_slash pattern then starts_with path pattern else text_eq pattern path

-- The longer of two patterns that match.
abbrev longer {ℓ} : {H : Type ℓ} → Text × H → Option (Text × H) → Option (Text × H)
longer entry none = some entry
longer (p, h) (some (q, k)) = if ltb (length p) (length q) then some (q, k) else some (p, h)

module _ {ℓ} {H : Type ℓ} where
  unfoldable pub lookup_pattern : Text → List (Text × H) → Option (Text × H)
  unfolding pattern_matches
  lookup_pattern path [] = none
  lookup_pattern path ((p, h) ∷ entries) =
      let rest = lookup_pattern path entries in
      if pattern_matches p path then longer (p, h) rest else rest

abbrev is_plain : Text → Bool
is_plain part =
    not (is_empty part) && not (text_eq part (codes ".")) && not (text_eq part (codes ".."))

-- The parts behind the first slash: all plain, but for an empty last one.
unfoldable pub clean_parts : List Text → Bool
unfolding text_eq
clean_parts [] = true
clean_parts (part ∷ []) = is_empty part || is_plain part
clean_parts (part ∷ next ∷ parts) = is_plain part && clean_parts (next ∷ parts)

abbrev rooted : List Text → Bool
rooted [] = false
rooted (first ∷ parts) = is_empty first && not (is_empty parts) && clean_parts parts

unfoldable pub is_clean : Text → Bool
unfolding clean_parts split_char
is_clean path = rooted (split_char b'/' path)
