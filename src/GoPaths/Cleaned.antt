-- ===== src/GoPaths/Cleaned.antt =====
-- The elements of a rooted path that `Clean` gives.
use ar_csent.Prelude.{
  append_assoc, ℕ, ◌≡◌, ◌≢◌, refl, ◌∙◌, sym, true, false, List, [], ◌∷◌, ◌++◌, All, is_empty, ◌==◌,
  ◌||◌, inl, inr, Bool-cases, arith,
}
use ar_csent.Text.{Text, text_eq, split_char, push_front}
use ar_csent.Text.Equality.{text_eq_iff, text_eq-false}
use ar_csent.Text.Split.{split_char-append}
use ar_csent.GoPaths.{
  dot, dot_dot, slash, climb, push, is_rooted, reverse_onto, elements, joined, clean,
}

-- An element that names an entry of its directory.
pub record IsName (e : Text) : Type 0 where
  pub non_empty : e ≢ []
  pub not_dot : e ≢ dot
  pub not_dot_dot : e ≢ dot_dot
  pub no_slash : All (λ c. c ≢ b'/') e

abbrev pub NoSlash : Text → Type 0
NoSlash = All (λ c. c ≢ b'/')

push_front-NoSlash :
    (x : ℕ) (ws : List Text) → x ≢ b'/' → All NoSlash ws → All NoSlash (push_front x ws)
push_front-NoSlash x [] n h = ((n, tt), tt)
push_front-NoSlash x (w ∷ ws) n h = ((n, h.0), h.1)

split_char-NoSlash : (s : Text) → All NoSlash (split_char b'/' s)
unfolding split_char
split_char-NoSlash [] = (tt, tt)
split_char-NoSlash (x ∷ s) = elim (Bool-cases (x == b'/')) [
  | inl e ↦ rw e (tt, split_char-NoSlash s)
  | inr e ↦
      rw e (push_front-NoSlash x (split_char b'/' s) (ground (arith, e)) (split_char-NoSlash s))
]

climb-IsName : (above : List Text) → All IsName above → All IsName (climb true above)
climb-IsName [] h = tt
climb-IsName (e ∷ above) h = rw (text_eq-false e dot_dot h.0.not_dot_dot) h.1

push-IsName :
    (above : List Text) (e : Text) → NoSlash e → All IsName above → All IsName (push true above e)
push-IsName above e ns h = elim (Bool-cases (is_empty e || text_eq e dot)) [
  | inl skip ↦ rw skip h
  | inr named ↦ elim (Bool-cases (text_eq e dot_dot)) [
    | inl up ↦ rw (named, up) (climb-IsName above h)
    | inr down ↦ rw (named, down) (name named down, h)
  ]
]
  where
    name : is_empty e || text_eq e dot ≡ false → text_eq e dot_dot ≡ false → IsName e
    name named down = record {
      non_empty = λ q. ground (arith, q, named);
      not_dot = λ q. ground (arith, text_eq_iff e dot, q, named);
      not_dot_dot = λ q. ground (arith, text_eq_iff e dot_dot, q, down);
      no_slash = ns;
    }

reverse_onto-IsName :
    (above out : List Text)
    → All IsName above
    → All IsName out
    → All IsName (reverse_onto above out)
unfolding reverse_onto
reverse_onto-IsName [] out h k = k
reverse_onto-IsName (e ∷ above) out h k = reverse_onto-IsName above (e ∷ out) h.1 (h.0, k)

elements-IsName :
    (above pieces : List Text)
    → All IsName above
    → All NoSlash pieces
    → All IsName (elements true above pieces)
unfolding elements
elements-IsName above [] h k = reverse_onto-IsName above [] h tt
elements-IsName above (e ∷ pieces) h k =
    elements-IsName (push true above e) pieces (push-IsName above e k.0 h) k.1

pub split_char_all : (e : Text) → NoSlash e → split_char b'/' e ≡ e ∷ []
unfolding split_char
split_char_all [] h = refl
split_char_all (x ∷ e) h = ground (arith, split_char_all e h.1)

split_char-joined :
    (e : Text) (es : List Text) → All IsName (e ∷ es) → split_char b'/' (joined (e ∷ es)) ≡ e ∷ es
unfolding joined
split_char-joined e [] h = split_char_all e h.0.no_slash
split_char-joined e (f ∷ es) h =
    split_char-append b'/' e (joined (f ∷ es)) h.0.no_slash ∙ rw (split_char-joined f es h.1) refl

split_char-ne-nil : (s : Text) → split_char b'/' s ≢ []
unfolding split_char
split_char-ne-nil [] h = cc
split_char-ne-nil (x ∷ s) h = elim (Bool-cases (x == b'/')) [
  | inl e ↦ cc (rw e at h)
  | inr e ↦ push_front-ne-nil x (split_char b'/' s) (rw e at h)
]
  where
    push_front-ne-nil : (x : ℕ) (ws : List Text) → push_front x ws ≢ []
    push_front-ne-nil x [] q = cc
    push_front-ne-nil x (w ∷ ws) q = cc

push_front-append :
    (x : ℕ) (ws us : List Text) → ws ≢ [] → push_front x (ws ++ us) ≡ push_front x ws ++ us
push_front-append x [] us h = absurd (h refl)
push_front-append x (w ∷ ws) us h = refl

-- A separator between two texts ends the pieces of the first.
split_char_between :
    (s t : Text) → split_char b'/' (s ++ b'/' ∷ t) ≡ split_char b'/' s ++ split_char b'/' t
unfolding split_char
split_char_between [] t = refl
split_char_between (x ∷ s) t = elim (Bool-cases (x == b'/')) [
  | inl e ↦ rw e (rw (split_char_between s t) refl)
  | inr e ↦ rw e (
      rw (split_char_between s t)
        (push_front-append x (split_char b'/' s) (split_char b'/' t) (split_char-ne-nil s)))
]

All-IsName_tail : (xs ys : List Text) → All IsName (xs ++ ys) → All IsName ys
All-IsName_tail [] ys h = h
All-IsName_tail (x ∷ xs) ys h = All-IsName_tail xs ys h.1

append-ne-nil : (s t : Text) (c : ℕ) → s ++ c ∷ t ≢ []
append-ne-nil [] t c h = cc
append-ne-nil (x ∷ s) t c h = cc

joined-below :
    (es : List Text) (above rest : Text)
    → All IsName es
    → joined es ≡ above ++ b'/' ∷ rest
    → All IsName (split_char b'/' rest)
joined-below [] above rest h e =
    absurd (append-ne-nil above rest b'/' (sym e ∙ unfold joined in refl))
joined-below (f ∷ es) above rest h e =
    All-IsName_tail (split_char b'/' above) (split_char b'/' rest)
      (rw (← split_char_between above rest, ← e, split_char-joined f es h) h)

-- Below a text, a cleaned rooted path goes on by names only.
pub clean-below :
    (s above rest : Text)
    → is_rooted s ≡ true
    → is_empty above ≡ false
    → clean s ≡ above ++ slash ++ rest
    → All IsName (split_char b'/' rest)
unfolding clean
clean-below s [] rest rooted some_above h = cc
clean-below s (c ∷ above) rest rooted some_above h =
    joined-below (elements true [] (split_char b'/' s)) above rest
      (elements-IsName [] (split_char b'/' s) tt (split_char-NoSlash s))
      (tail_inj (rw rooted at h) ∙ append_assoc above slash rest)
  where
    tail_inj : {x y : ℕ} {t u : Text} → x ∷ t ≡ y ∷ u → t ≡ u
    tail_inj e = ground (arith, e)
