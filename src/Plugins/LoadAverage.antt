-- ===== src/Plugins/LoadAverage.antt =====
-- internal/plugins/system/load_avg.go: the parsing of /proc/loadavg. `strconv.ParseFloat` is the
-- argument `parse_float`, and `strconv.Atoi` the argument `atoi`, which gives a value and an error.
use ar_csent.Prelude.{
  ◌≡◌, ◌≢◌, refl, true, false, not, ◌&&◌, Option, none, some, List, [], ◌∷◌, ◌++◌, append_assoc,
  append-nil, All, is_empty, if◌then◌else◌, ℤ, pos,
}
use ar_csent.Text.{Text, codes, split_char}
use ar_csent.Text.Split.{split_char-append}
use ar_csent.Api.{Result, ok, err, ◌>>=◌}
use ar_csent.GoPaths.Cleaned.{NoSlash, split_char_all}
use ar_csent.GoStrings.{is_white_space}

pub record LoadAvg (F : Type 0) : Type 0 where
  pub load1 : F
  pub load5 : F
  pub load15 : F
  pub runnable : ℤ
  pub total_threads : ℤ
  pub last_pid : ℤ

-- `strings.Fields` from a part of a field on.
unfoldable pub fields_from : Text → Text → List Text
unfolding is_white_space
fields_from word [] = if is_empty word then [] else word ∷ []
fields_from word (c ∷ s) =
    let rest = fields_from (if is_white_space c then [] else word ++ c ∷ []) s in
    if is_white_space c && not (is_empty word) then word ∷ rest else rest

unfoldable pub fields : Text → List Text
unfolding fields_from
fields s = fields_from [] s

module _ {F : Type 0} (parse_float : Text → Result F) (atoi : Text → ℤ × Option Text) where
  abbrev explained : {A : Type 0} → Text → Result A → Result A
  explained context (ok a) = ok a
  explained context (err text) = err (context ++ text)

  abbrev number : ℤ × Option Text → Result ℤ
  number (n, none) = ok n
  number (n, some text) = err text

  abbrev last_pid_of : List Text → ℤ
  last_pid_of [] = pos 0
  last_pid_of (p ∷ rest) = (atoi p).0

  abbrev counted : F → F → F → List Text → List Text → Result (LoadAvg F)
  counted load1 load5 load15 (running ∷ total ∷ []) rest = do
    runnable ← explained (codes "parse runnable: ") (number (atoi running))
    total_threads ← explained (codes "parse total threads: ") (number (atoi total))
    ok (record {
      load1 = load1;
      load5 = load5;
      load15 = load15;
      runnable = runnable;
      total_threads = total_threads;
      last_pid = last_pid_of rest;
    })
  counted load1 load5 load15 _ rest = err (codes "invalid loadavg running format")

  abbrev of_fields : List Text → Result (LoadAvg F)
  of_fields (a ∷ b ∷ c ∷ running ∷ rest) = do
    load1 ← explained (codes "parse load1: ") (parse_float a)
    load5 ← explained (codes "parse load5: ") (parse_float b)
    load15 ← explained (codes "parse load15: ") (parse_float c)
    counted load1 load5 load15 (split_char b'/' running) rest
  of_fields _ = err (codes "invalid loadavg format")

  unfoldable pub parse_load_avg : Text → Result (LoadAvg F)
  unfolding fields split_char
  parse_load_avg raw = of_fields (fields raw)

-- A field: a text that is not empty and has no white space.
pub record IsField (w : Text) : Type 0 where
  pub filled : w ≢ []
  pub no_space : All (λ c. is_white_space c ≡ false) w

fields_from-append :
    (word w s : Text) (c : _)
    → is_white_space c ≡ true
    → All (λ d. is_white_space d ≡ false) w
    → is_empty (word ++ w) ≡ false
    → fields_from word (w ++ c ∷ s) ≡ (word ++ w) ∷ fields_from [] s
unfolding fields_from
fields_from-append word [] s c space plain filled =
    let named : is_empty word ≡ false = rw (append-nil word) at filled in
    rw (space, named, append-nil word) refl
fields_from-append word (d ∷ w) s c space plain filled =
    rw (plain.0, ← append_assoc word (d ∷ []) w)
      (fields_from-append (word ++ d ∷ []) w s c space plain.1
        (rw (← append_assoc word (d ∷ []) w) at filled))

not_empty : (w : Text) → w ≢ [] → is_empty w ≡ false
not_empty [] h = absurd (h refl)
not_empty (c ∷ w) h = refl

-- A field ends at the white space behind it.
fields-append :
    (w s : Text) (c : _) → is_white_space c ≡ true → IsField w → fields (w ++ c ∷ s) ≡ w ∷ fields s
unfolding fields
fields-append w s c space field =
    fields_from-append [] w s c space field.no_space (not_empty w field.filled)

fields-nil : fields [] ≡ []
unfolding fields
fields-nil = refl

-- The line that the kernel writes: five fields with one blank between two of them.
abbrev pub load_line : Text → Text → Text → Text → Text → Text → Text
load_line a b c running total p =
    a ++ 32 ∷ (b ++ 32 ∷ (c ++ 32 ∷ ((running ++ b'/' ∷ total) ++ 32 ∷ (p ++ 10 ∷ []))))

fields-load_line :
    (a b c running total p : Text)
    → IsField a
    → IsField b
    → IsField c
    → IsField (running ++ b'/' ∷ total)
    → IsField p
    → fields (load_line a b c running total p) ≡ a ∷ b ∷ c ∷ (running ++ b'/' ∷ total) ∷ p ∷ []
unfolding is_white_space
fields-load_line a b c running total p ha hb hc hr hp =
    rw
      (
        fields-append a _ 32 refl ha,
        fields-append b _ 32 refl hb,
        fields-append c _ 32 refl hc,
        fields-append (running ++ b'/' ∷ total) _ 32 refl hr,
        fields-append p [] 10 refl hp,
        fields-nil,
      )
      refl

-- The line of /proc/loadavg gives back its five parts, if each of them is a field, the two numbers of
-- threads have no slash, and their texts are parsed without an error; the last one may have an error.
pub parse_load_avg-load_line :
    {F : Type 0} (parse_float : Text → Result F) (atoi : Text → ℤ × Option Text)
    (a b c running total p : Text) (l : LoadAvg F)
    → IsField a
    → IsField b
    → IsField c
    → IsField (running ++ b'/' ∷ total)
    → IsField p
    → NoSlash running
    → NoSlash total
    → parse_float a ≡ ok l.load1
    → parse_float b ≡ ok l.load5
    → parse_float c ≡ ok l.load15
    → atoi running ≡ (l.runnable, none)
    → atoi total ≡ (l.total_threads, none)
    → (atoi p).0 ≡ l.last_pid
    → parse_load_avg parse_float atoi (load_line a b c running total p) ≡ ok l
unfolding parse_load_avg
parse_load_avg-load_line parse_float atoi a b c running total p l ha hb hc hr hp nr nt ea eb ec er
      et ep =
    simp
      (
        fields-load_line a b c running total p ha hb hc hr hp,
        ea,
        eb,
        ec,
        split_char-append b'/' running total nr,
        split_char_all total nt,
        er,
        et,
        ep,
      )
      refl
