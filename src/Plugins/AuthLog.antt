-- ===== src/Plugins/AuthLog.antt =====
-- internal/plugins/system/auth_log.go: the monitor of authentication failures.
use ar_csent.Prelude.{
  All, pos, ◌<◌, ℕ, suc, ◌-◌, ◌+◌, ◌≤◌, ◌≡◌, refl, sym, ap, ◌∙◌, Bool, false, ◌||◌, Option, some,
  List, [], ◌∷◌, ◌++◌, append_assoc, append-nil, ltb, leb, ◌==◌, length, length-append, filter, map,
  is_empty, if◌then◌else◌, Bool-cases, arith, inl, inr,
}
use ar_csent.Text.{Text, codes}
use ar_csent.Dict.{Dict, get}
use ar_csent.Api.{Result, ok, err}
use ar_csent.Results.{Value, string, Finding, ScanResult, drop}
use ar_csent.Results.History.{last, last-last, last_of_le, length-last}
use ar_csent.Signatures.Paths.{contains}
use ar_csent.Plugins.{Setting, text, positive, list, Settings, none_left, one_more}

pub record AuthLogMonitor : Type 0 where
  pub path : Text
  pub failed_patterns : List Text
  pub max_lines : ℕ

-- A line without the carriage return at its end.
abbrev without_return : Text → Text
without_return [] = []
without_return (c ∷ []) = if c == 13 then [] else c ∷ []
without_return (c ∷ d ∷ s) = c ∷ without_return (d ∷ s)

-- The lines that a `bufio.Scanner` gives of a content, from a part of a line on with its length: it
-- ends at the first line that fills its buffer.
unfoldable pub scan_from : ℕ → Text → ℕ → Text → List Text
scan_from buffer line n [] = if is_empty line then [] else without_return line ∷ []
scan_from buffer line n (c ∷ content) =
    let ends = c == 10 in
    let rest =
      scan_from buffer (if ends then [] else line ++ c ∷ []) (if ends then 0 else suc n) content in
    if ends then without_return line ∷ rest else if leb buffer (suc n) then [] else rest

unfoldable pub scan_lines : Text → List Text
unfolding scan_from
scan_lines content = scan_from 65536 [] 0 content

-- The lines so far, without the first where they are too many.
abbrev kept : ℕ → List Text → List Text
kept max_lines lines = if ltb max_lines (length lines) then drop 1 lines else lines

-- The loop of `readLastLines` from the lines so far on.
unfoldable pub read_from : ℕ → List Text → List Text → List Text
unfolding drop
read_from max_lines lines [] = lines
read_from max_lines lines (line ∷ rest) =
    read_from max_lines (kept max_lines (lines ++ line ∷ [])) rest

unfoldable pub read_last_lines : ℕ → List Text → List Text
unfolding read_from
read_last_lines max_lines scanned = read_from max_lines [] scanned

unfoldable pub matches : List Text → Text → Bool
unfolding contains
matches [] line = false
matches (pattern ∷ patterns) line =
    let rest = matches patterns line in contains line pattern || rest

abbrev pub auth_failed : {J : Type 0} → Text → Finding J
auth_failed line = record {
  id = codes "auth_failed";
  severity = codes "medium";
  category = codes "auth";
  description = codes "Authentication failure detected";
  evidence = (codes "line", string line) ∷ [];
  remediation = codes "Review auth logs and block suspicious sources.";
}

abbrev found_in : {J : Type 0} → List Text → List Text → List (Finding J)
found_in patterns [] = []
found_in patterns (line ∷ lines) =
    let rest = found_in patterns lines in
    if matches patterns line then auth_failed line ∷ rest else rest

-- The findings of `Run` on the content of the log.
unfoldable pub findings : {J : Type 0} → AuthLogMonitor → Text → List (Finding J)
unfolding read_last_lines matches scan_lines
findings a content = found_in a.failed_patterns (read_last_lines a.max_lines (scan_lines content))

abbrev text_or : Text → Option Setting → Text
text_or default (some (text [])) = default
text_or default (some (text (c ∷ s))) = c ∷ s
text_or default _ = default

-- The texts of a list that are not empty.
abbrev texts : Settings → List Text
texts none_left = []
texts (one_more (text []) rest) = texts rest
texts (one_more (text (c ∷ s)) rest) = (c ∷ s) ∷ texts rest
texts (one_more _ rest) = texts rest

abbrev texts_or : List Text → Option Setting → List Text
texts_or default (some (list none_left)) = default
texts_or default (some (list (one_more v rest))) = texts (one_more v rest)
texts_or default _ = default

abbrev number_or : ℕ → Option Setting → ℕ
number_or default (some (positive n)) = n
number_or default _ = default

abbrev default_patterns : List Text
default_patterns =
    codes "Failed password" ∷ codes "authentication failure" ∷ codes "Invalid user" ∷ []

unfoldable pub init : Dict Setting → AuthLogMonitor
unfolding get
init config = record {
  path = text_or (codes "/var/log/auth.log") (get (codes "path") config);
  failed_patterns = texts_or default_patterns (get (codes "failed_patterns") config);
  max_lines = number_or 500 (get (codes "max_lines") config);
}

-- `Run` at the time of a text, on what the opening of the log gives; `number` is a count as a value.
unfoldable pub run :
    {J : Type 0} → (ℕ → J) → Text → AuthLogMonitor → Result Text → Result (ScanResult ℕ J)
unfolding findings read_last_lines scan_lines
run number timestamp a (err message) = err (codes "open auth log: " ++ message)
run number timestamp a (ok content) = ok (record {
  scanner_name = codes "system.auth_log";
  status = codes "success";
  findings = findings a content;
  started_at = 0;
  finished_at = 0;
  duration = pos 0;
  metadata =
      (codes "path", string a.path)
      ∷ (codes "timestamp", string timestamp)
      ∷ (
        codes "lines_scanned",
        Value.other (number (length (read_last_lines a.max_lines (scan_lines content)))),
      )
      ∷ [];
})

-- A line that fills the buffer hides itself and all that follows.
pub scan_from-overlong :
    (buffer : ℕ) (line : Text) (n : ℕ) (long rest : Text)
    → n < buffer
    → buffer ≤ n + length long
    → All (λ c. (c == 10) ≡ false) long
    → scan_from buffer line n (long ++ rest) ≡ []
unfolding scan_from
scan_from-overlong buffer line n [] rest h k plain = absurd (omega (arith, h, k))
scan_from-overlong buffer line n (c ∷ long) rest h k plain =
    elim (Bool-cases (leb buffer (suc n))) [
      | inl full ↦ rw (plain.0, full) refl
      | inr free ↦
          rw (plain.0, free)
            (scan_from-overlong buffer (line ++ c ∷ []) (suc n) long rest (ground (arith, free))
              (omega arith) plain.1)
    ]

kept-eq-last : (n : ℕ) (lines : List Text) → length lines ≤ suc n → kept n lines ≡ last n lines
kept-eq-last n lines h = elim (Bool-cases (ltb n (length lines))) [
  | inl more ↦
      let one : 1 ≡ length lines - n = ground (arith, more, h) in
      rw more (ap (λ m. drop m lines) one)
  | inr fits ↦ rw fits (sym (last_of_le n lines (ground (arith, fits))))
]

kept-last :
    (n : ℕ) (lines : List Text) (line : Text)
    → kept n (last n lines ++ line ∷ []) ≡ last n (lines ++ line ∷ [])
kept-last n lines line =
    kept-eq-last n (last n lines ++ line ∷ [])
      (omega (arith, length-last n lines, length-append (last n lines) (line ∷ [])))
    ∙ last-last n lines line

read_from-last :
    (n : ℕ) (before rest : List Text) → read_from n (last n before) rest ≡ last n (before ++ rest)
unfolding read_from
read_from-last n before [] = rw (append-nil before) refl
read_from-last n before (line ∷ rest) =
    rw
      (
        kept-last n before line,
        read_from-last n (before ++ line ∷ []) rest,
        append_assoc before (line ∷ []) rest,
      )
      refl

found_in-filter :
    {J : Type 0} (patterns lines : List Text)
    → found_in {J = J} patterns lines ≡ map auth_failed (filter (matches patterns) lines)
found_in-filter patterns [] = refl
found_in-filter {J} patterns (line ∷ lines) = elim (Bool-cases (matches patterns line)) [
  | inl e ↦
      rw e (ap (λ (l : List (Finding J)). auth_failed line ∷ l) (found_in-filter patterns lines))
  | inr e ↦ rw e (found_in-filter patterns lines)
]

-- A run reports, in their order, those of the last lines that were scanned, at most as many as the
-- configuration says, that hold one of the patterns.
pub findings-last :
    {J : Type 0} (a : AuthLogMonitor) (content : Text)
    → findings {J = J} a content
      ≡ map auth_failed (filter (matches a.failed_patterns) (last a.max_lines (scan_lines content)))
unfolding findings read_last_lines drop
findings-last a content =
    rw (read_from-last a.max_lines [] (scan_lines content))
      (found_in-filter a.failed_patterns (last a.max_lines (scan_lines content)))
