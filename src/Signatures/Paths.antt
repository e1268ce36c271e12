-- ===== src/Signatures/Paths.antt =====
-- internal/signatures/updater.go: where an entry of an archive is extracted to.
use ar_csent.Prelude.{
  ◌≡◌, ◌⊎◌, inl, inr, refl, sym, ◌∙◌, Bool, true, false, not, ◌&&◌, ◌||◌, [], ◌∷◌, ◌++◌, All,
  is_empty, if◌then◌else◌, Bool-cases, arith,
}
use ar_csent.Text.{Text, codes, text_eq, starts_with, split_char}
use ar_csent.Text.Equality.{text_eq_iff}
use ar_csent.Api.{Result, ok, err}
use ar_csent.GoPaths.{clean, join, slash, dot_dot, is_rooted}
use ar_csent.GoPaths.Cleaned.{IsName, clean-below}

-- `strings.Contains`
unfoldable pub contains : Text → Text → Bool
unfolding starts_with
contains [] part = starts_with [] part
contains (c ∷ s) part = starts_with (c ∷ s) part || contains s part

-- The check of a target against the cleaned destination.
abbrev checked : Text → Text → Result Text
checked clean_dest target =
    if not (text_eq target clean_dest) && not (starts_with target (clean_dest ++ slash))
    then err (codes "invalid extract target: " ++ target)
    else ok target

unfoldable pub safe_extract_path : Text → Text → Result Text
unfolding clean join contains starts_with
safe_extract_path dest name =
    if starts_with (clean name) dot_dot || contains (clean name) (dot_dot ++ slash)
    then err (codes "invalid path traversal: " ++ name)
    else checked (clean dest) (join (clean dest) (clean name))

-- A path is the cleaned destination, or goes on below it by names only.
abbrev pub Inside : Text → Text → Type 0
Inside dest target =
    (target ≡ clean dest)
    ⊎ ((rest : Text) × (target ≡ clean dest ++ slash ++ rest) × All IsName (split_char b'/' rest))

starts_with-true : (s p : Text) → starts_with s p ≡ true → (rest : Text) × (s ≡ p ++ rest)
unfolding starts_with
starts_with-true s [] h = (s, refl)
starts_with-true [] (y ∷ p) h = cc
starts_with-true (x ∷ s) (y ∷ p) h =
    let r = starts_with-true s p (ground arith) in (r.0, ground (arith, r.1))

is_rooted-clean : (s : Text) → is_rooted s ≡ true → is_rooted (clean s) ≡ true
unfolding clean
is_rooted-clean s h = rw h refl

-- Below a rooted path, a join is rooted too.
join-rooted :
    (a b : Text)
    → is_rooted a ≡ true
    → (join a b ≡ clean (a ++ slash ++ b)) × (is_rooted (a ++ slash ++ b) ≡ true)
unfolding join
join-rooted [] b h = cc
join-rooted (c ∷ a) b h = (refl, h)

non_empty-rooted : (s : Text) → is_rooted s ≡ true → is_empty s ≡ false
non_empty-rooted [] h = cc
non_empty-rooted (c ∷ s) h = refl

accepted :
    (bad : Bool) (message clean_dest t target : Text)
    → (if bad then err message else checked clean_dest t) ≡ ok target
    → (target ≡ t) × ((target ≡ clean_dest) ⊎ (starts_with target (clean_dest ++ slash) ≡ true))
accepted bad message clean_dest t target h = ground (
  arith,
  Bool-cases bad,
  text_eq_iff t clean_dest,
  Bool-cases (starts_with t (clean_dest ++ slash)),
)

-- With an absolute destination, an entry that is accepted has its target inside the destination: at it
-- or below it, by elements that are not empty, hold no slash and are neither `.` nor `..`.
pub safe_extract_path-Inside :
    (dest name target : Text)
    → is_rooted dest ≡ true
    → safe_extract_path dest name ≡ ok target
    → Inside dest target
unfolding safe_extract_path
safe_extract_path-Inside dest name target rooted h =
    let (same, place) =
      accepted (starts_with (clean name) dot_dot || contains (clean name) (dot_dot ++ slash))
        (codes "invalid path traversal: " ++ name) (clean dest) (join (clean dest) (clean name))
        target h in
    elim place [
      | inl at_dest ↦ inl at_dest
      | inr below ↦
          let cleaned = join-rooted (clean dest) (clean name) (is_rooted-clean dest rooted) in
          let r = starts_with-true target (clean dest ++ slash) below in
          inr (
            r.0,
            r.1,
            clean-below (clean dest ++ slash ++ clean name) (clean dest) r.0 cleaned.1
                (non_empty-rooted (clean dest) (is_rooted-clean dest rooted))
                (sym cleaned.0 ∙ (sym same ∙ r.1)),
          )
    ]
