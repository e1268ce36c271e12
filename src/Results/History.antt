-- ===== src/Results/History.antt =====
-- internal/state/results.go: what the cache keeps of all the results that were ever added.
use ar_csent.Prelude.{
  ℕ, zero, suc, ◌+◌, ◌-◌, ◌≤◌, ◌≡◌, refl, sym, ◌∙◌, ap, Option, none, some, List, [], ◌∷◌, ◌++◌,
  append_assoc, append-nil, length, length-append, ltb, if◌then◌else◌, arith, ℤ, Bool-cases, inl,
  inr,
}
use ar_csent.Text.{Text, text_eq}
use ar_csent.Dict.{get}
use ar_csent.Dict.Laws.{or_else, get-set}
use ar_csent.Results.{ScanResult, ResultCache, new_cache, add, drop, limit_of, trimmed}

-- The last n elements.
abbrev pub last {ℓ} : {A : Type ℓ} → ℕ → List A → List A
last n xs = drop (length xs - n) xs

drop-zero {ℓ} : {A : Type ℓ} (xs : List A) → drop 0 xs ≡ xs
unfolding drop
drop-zero [] = refl
drop-zero (x ∷ xs) = refl

pub length-drop {ℓ} : {A : Type ℓ} (n : ℕ) (xs : List A) → length (drop n xs) ≡ length xs - n
unfolding drop
length-drop n [] = omega arith
length-drop zero (x ∷ xs) = omega arith
length-drop (suc n) (x ∷ xs) = omega (arith, length-drop n xs)

drop-drop {ℓ} : {A : Type ℓ} (j n : ℕ) (xs : List A) → drop j (drop n xs) ≡ drop (n + j) xs
unfolding drop
drop-drop j n [] = refl
drop-drop j zero (x ∷ xs) = ap (λ m. drop m (x ∷ xs)) (omega arith)
drop-drop j (suc n) (x ∷ xs) =
    let step : suc (n + j) ≡ suc n + j = omega arith in
    drop-drop j n xs ∙ ap (λ m. drop m (x ∷ xs)) step

drop-append {ℓ} :
    {A : Type ℓ} (n : ℕ) (xs ys : List A) → n ≤ length xs → drop n (xs ++ ys) ≡ drop n xs ++ ys
unfolding drop
drop-append n [] ys h = let none_left : n ≡ 0 = omega arith in rw none_left (drop-zero ys)
drop-append zero (x ∷ xs) ys h = refl
drop-append (suc n) (x ∷ xs) ys h = drop-append n xs ys (omega arith)

pub last-last {ℓ} :
    {A : Type ℓ} (n : ℕ) (xs : List A) (x : A)
    → last n (last n xs ++ x ∷ []) ≡ last n (xs ++ x ∷ [])
last-last n xs x =
    ap (last n) (sym (drop-append (length xs - n) xs (x ∷ []) (omega arith)))
    ∙ drop-drop _ (length xs - n) (xs ++ x ∷ [])
    ∙ ap (λ m. drop m (xs ++ x ∷ []))
        (omega (arith, length-drop (length xs - n) (xs ++ x ∷ []), length-append xs (x ∷ [])))

pub length-last {ℓ} : {A : Type ℓ} (n : ℕ) (xs : List A) → length (last n xs) ≤ n
length-last n xs = omega (arith, length-drop (length xs - n) xs)

length-last_of_le {ℓ} : {A : Type ℓ} (n : ℕ) (xs : List A) → n ≤ length xs → length (last n xs) ≡ n
length-last_of_le n xs h = omega (arith, length-drop (length xs - n) xs)

pub last_of_le {ℓ} : {A : Type ℓ} (n : ℕ) (xs : List A) → length xs ≤ n → last n xs ≡ xs
last_of_le n xs h = let none_left : length xs - n ≡ 0 = omega arith in rw none_left (drop-zero xs)

trimmed_lem :
    {T J : Type 0} (limit : ℕ) (history : List (ScanResult T J))
    → trimmed limit history ≡ last limit history
trimmed_lem limit history = elim (Bool-cases (ltb limit (length history))) [
  | inl more ↦ rw more refl
  | inr fits ↦ rw fits (sym (last_of_le limit history (ground arith)))
]

module _ {T J : Type 0} where
  -- The last result of a name.
  abbrev pub find_last : Text → List (ScanResult T J) → Option (ScanResult T J)
  find_last name [] = none
  find_last name (res ∷ results) =
      or_else (find_last name results) (if text_eq res.scanner_name name then some res else none)

  find_last-append :
      (name : Text) (results : List (ScanResult T J)) (res : ScanResult T J)
      → find_last name (results ++ res ∷ [])
        ≡ (if text_eq res.scanner_name name then some res else find_last name results)
  find_last-append name [] res = ground arith
  find_last-append name (r ∷ results) res = ground (arith, find_last-append name results res)

  -- The cache as a view of the sequence of all added results: the last ones up to the limit, and
  -- the last one of each name.
  pub record Tracks (added : List (ScanResult T J)) (c : ResultCache T J) : Type 0 where
    pub history : c.history ≡ last c.limit added
    pub latest : (name : Text) → get name c.latest ≡ find_last name added

  -- A sequence of calls of `Add`, the first one first.
  abbrev pub add_all : List (ScanResult T J) → ResultCache T J → ResultCache T J
  add_all [] c = c
  add_all (res ∷ results) c = add_all results (add res c)

  new_cache-Tracks : (limit : ℤ) → Tracks [] (new_cache limit)
  unfolding new_cache drop get
  new_cache-Tracks limit = record { history = refl; latest = λ name. refl }

  add-Tracks :
      (added : List (ScanResult T J)) (res : ScanResult T J) (c : ResultCache T J)
      → Tracks added c
      → Tracks (added ++ res ∷ []) (add res c)
  unfolding add
  add-Tracks added res c t = record {
    history =
        trimmed_lem c.limit (c.history ++ res ∷ [])
        ∙ ap (λ h. last c.limit (h ++ res ∷ [])) t.history
        ∙ last-last c.limit added res;
    latest = λ name.
        get-set res.scanner_name name res c.latest
        ∙ ap (λ o. if text_eq res.scanner_name name then some res else o) (t.latest name)
        ∙ sym (find_last-append name added res);
  }

  add_all-Tracks_from :
      (added results : List (ScanResult T J)) (c : ResultCache T J)
      → Tracks added c
      → Tracks (added ++ results) (add_all results c)
  add_all-Tracks_from added [] c t = rw (append-nil added) t
  add_all-Tracks_from added (res ∷ results) c t =
      simp append_assoc at
        (add_all-Tracks_from (added ++ res ∷ []) results (add res c) (add-Tracks added res c t))

  -- After any sequence of results the history has the last of them, in their order and no more than
  -- the limit, and the latest result of each name is the last one of that name among all of them,
  -- even where the history has it no more.
  pub add_all-Tracks :
      (limit : ℤ) (results : List (ScanResult T J))
      → Tracks results (add_all results (new_cache limit))
  add_all-Tracks limit results =
      add_all-Tracks_from [] results (new_cache limit) (new_cache-Tracks limit)

  find_last-drop :
      (name : Text) (n : ℕ) (results : List (ScanResult T J)) (res : ScanResult T J)
      → find_last name (drop n results) ≡ some res
      → find_last name results ≡ some res
  unfolding drop
  find_last-drop name n [] res h = h
  find_last-drop name zero (r ∷ results) res h = h
  find_last-drop name (suc n) (r ∷ results) res h = rw (find_last-drop name n results res h) refl

  -- The history and the latest results agree, after any sequence of results: if a name is in the
  -- history, its last result there is its latest result.
  pub add_all-agree :
      (limit : ℤ) (results : List (ScanResult T J)) (name : Text) (res : ScanResult T J)
      → find_last name (add_all results (new_cache limit)).history ≡ some res
      → get name (add_all results (new_cache limit)).latest ≡ some res
  add_all-agree limit results name res h =
      let t = add_all-Tracks limit results in
      t.latest name ∙ find_last-drop name _ results res (ap (find_last name) (sym t.history) ∙ h)

  limit-add_all :
      (results : List (ScanResult T J)) (c : ResultCache T J) → (add_all results c).limit ≡ c.limit
  unfolding add
  limit-add_all [] c = refl
  limit-add_all (res ∷ results) c = limit-add_all results (add res c)

  pub history-add_all :
      (limit : ℤ) (results : List (ScanResult T J))
      → (add_all results (new_cache limit)).history ≡ last (limit_of limit) results
  history-add_all limit results =
      let kept : (add_all results (new_cache limit)).limit ≡ limit_of limit =
        limit-add_all results (new_cache limit) ∙ (unfold new_cache in refl) in
      (add_all-Tracks limit results).history ∙ ap (λ n. last n results) kept

  -- The history never has more results than the limit, all of them as long as they fit, and as many
  -- as the limit from there on; a limit that is not positive stands for 50.
  pub length-history :
      (limit : ℤ) (results : List (ScanResult T J))
      → (length (add_all results (new_cache limit)).history ≤ limit_of limit)
        × (length results ≤ limit_of limit → (add_all results (new_cache limit)).history ≡ results)
        × (limit_of limit ≤ length results
            → length (add_all results (new_cache limit)).history ≡ limit_of limit)
  length-history limit results =
      let history = history-add_all limit results in
      (
        rw history (length-last (limit_of limit) results),
        λ fits. history ∙ last_of_le (limit_of limit) results fits,
        λ many. rw history (length-last_of_le (limit_of limit) results many),
      )
