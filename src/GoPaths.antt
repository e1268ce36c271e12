-- ===== src/GoPaths.antt =====
-- What the daemon uses of Go's package path/filepath where the separator is a slash: `Clean`, `Join` of
-- two texts, `Dir` and `Base`.
pub mod Cleaned
use ar_csent.Prelude.{
  Bool, true, false, not, ◌&&◌, ◌||◌, List, [], ◌∷◌, ◌++◌, ◌==◌, is_empty, if◌then◌else◌,
}
use ar_csent.Text.{Text, codes, text_eq, split_char}

abbrev pub slash : Text
slash = b'/' ∷ []

abbrev pub dot : Text
dot = b'.' ∷ []

abbrev pub dot_dot : Text
dot_dot = b'.' ∷ b'.' ∷ []

-- The elements so far, the last one first, after an element `..`.
abbrev pub climb : Bool → List Text → List Text
climb true [] = []
climb false [] = dot_dot ∷ []
climb rooted (e ∷ above) = if text_eq e dot_dot then dot_dot ∷ e ∷ above else above

abbrev pub push : Bool → List Text → Text → List Text
push rooted above e =
    if is_empty e || text_eq e dot
    then above
    else if text_eq e dot_dot
    then climb rooted above
    else e ∷ above

unfoldable pub reverse_onto : List Text → List Text → List Text
reverse_onto [] out = out
reverse_onto (e ∷ above) out = reverse_onto above (e ∷ out)

unfoldable pub elements : Bool → List Text → List Text → List Text
unfolding reverse_onto
elements rooted above [] = reverse_onto above []
elements rooted above (e ∷ pieces) = elements rooted (push rooted above e) pieces

abbrev pub is_rooted : Text → Bool
is_rooted [] = false
is_rooted (c ∷ s) = c == b'/'

unfoldable pub joined : List Text → Text
joined [] = []
joined (e ∷ []) = e
joined (e ∷ f ∷ es) = e ++ b'/' ∷ joined (f ∷ es)

abbrev pub render : Bool → List Text → Text
render true es = b'/' ∷ joined es
render false [] = dot
render false (e ∷ es) = joined (e ∷ es)

-- `filepath.Clean`
unfoldable pub clean : Text → Text
unfolding elements joined split_char
clean s = render (is_rooted s) (elements (is_rooted s) [] (split_char b'/' s))

-- `filepath.Join`
unfoldable pub join : Text → Text → Text
unfolding clean
join a b = if is_empty a then (if is_empty b then [] else clean b) else clean (a ++ slash ++ b)

-- A path up to its last slash, with it.
unfoldable pub up_to_slash : Text → Text
up_to_slash [] = []
up_to_slash (c ∷ s) =
    let rest = up_to_slash s in if is_empty rest && not (c == b'/') then [] else c ∷ rest

-- `filepath.Dir`
unfoldable pub dir : Text → Text
unfolding clean up_to_slash
dir s = clean (up_to_slash s)

-- A path without the slashes at its end.
unfoldable pub without_slashes : Text → Text
without_slashes [] = []
without_slashes (c ∷ s) =
    let rest = without_slashes s in if is_empty rest && c == b'/' then [] else c ∷ rest

abbrev last_piece : List Text → Text
last_piece [] = []
last_piece (e ∷ []) = e
last_piece (e ∷ f ∷ es) = last_piece (f ∷ es)

abbrev or_slash : Text → Text
or_slash [] = slash
or_slash (c ∷ s) = c ∷ s

-- `path.Base`, which is also `filepath.Base`
unfoldable pub base : Text → Text
unfolding without_slashes split_char
base [] = dot
base (c ∷ s) = or_slash (last_piece (split_char b'/' (without_slashes (c ∷ s))))
