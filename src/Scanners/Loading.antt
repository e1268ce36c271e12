-- ===== src/Scanners/Loading.antt =====
-- web/src/pages/Scanners.tsx: each scanner's loading flag tells whether its trigger is pending.
use ar_csent.Prelude.{
  ℕ, ◌+◌, ◌≡◌, refl, sym, ◌∙◌, ap, Bool, true, false, not, List, [], ◌∷◌, ◌++◌, String, arith,
  if◌then◌else◌, filter,
}
use mathlib.Core.List.{Memᴰ}
use ar_csent.Text.{Text, text_eq}
use ar_csent.Text.Equality.{text_eq_iff}
use ar_csent.Dict.Laws.{get-set}
use ar_csent.Api.{Result, ok, err}
use ar_csent.Components.{ClassValue}
use ar_csent.Scanners.{State, load, handle_trigger, settle_trigger, is_loading, set_loading}
use ar_csent.Scanners.View.Clicks.{events-view_idle}
use ar_csent.Scanners.Steps.{World, Step, listed, click, settled, Reach, here, next}

-- The pending triggers of one scanner.
abbrev pub times : Text → List Text → ℕ
times plugin [] = 0
times plugin (p ∷ pending) = (if text_eq p plugin then 1 else 0) + times plugin pending

abbrev pub one_if : Bool → ℕ
one_if b = if b then 1 else 0

abbrev pub IsConsistent : World → Type 0
IsConsistent w = (plugin : Text) → times plugin w.pending ≡ one_if (is_loading plugin w.page)

is_loading-set_loading :
    (plugin j : Text) (value : Bool) (s : State)
    → is_loading j (set_loading plugin value s)
      ≡ (if text_eq plugin j then value else is_loading j s)
unfolding is_loading set_loading
is_loading-set_loading plugin j value s = ground (arith, get-set plugin j value s.loading)

times-append :
    (plugin p : Text) (xs ys : List Text)
    → times plugin (xs ++ p ∷ ys) ≡ (if text_eq p plugin then 1 else 0) + times plugin (xs ++ ys)
times-append plugin p [] ys = refl
times-append plugin p (x ∷ xs) ys = omega (arith, times-append plugin p xs ys)

mem-filter_idle :
    (s : State) (plugin : Text) (plugins : List Text)
    → Memᴰ plugin (filter (λ p. not (is_loading p s)) plugins)
    → is_loading plugin s ≡ false
mem-filter_idle s plugin [] h = elim h [ ]
mem-filter_idle s plugin (x ∷ xs) h = on_flag (is_loading x s) refl (mem-filter_idle s plugin xs) h
  where
    on_flag :
        (b : Bool)
        → is_loading x s ≡ b
        → (Memᴰ plugin (filter (λ p. not (is_loading p s)) xs) → is_loading plugin s ≡ false)
        → Memᴰ plugin (
            if not b
            then x ∷ filter (λ p. not (is_loading p s)) xs
            else filter (λ p. not (is_loading p s)) xs)
        → is_loading plugin s ≡ false
    on_flag true e rest m = rest m
    on_flag false e rest (Memᴰ.head same) = rw same e
    on_flag false e rest (Memᴰ.tail m) = rest m

load-is_loading :
    {J : Type 0} (found : Result _) (s : State) (plugin : Text)
    → is_loading plugin (load {J = J} found s) ≡ is_loading plugin s
unfolding load is_loading
load-is_loading (ok found) s plugin = refl
load-is_loading (err m) s plugin = refl

-- A click on an idle scanner, seen from any scanner.
triggered :
    (p plugin : Text) (w : World)
    → times plugin w.pending ≡ one_if (is_loading plugin w.page)
    → times p w.pending ≡ one_if (is_loading p w.page)
    → is_loading p w.page ≡ false
    → times plugin (p ∷ w.pending) ≡ one_if (is_loading plugin (handle_trigger p w.page))
unfolding handle_trigger
triggered p plugin w c cp idle =
    ground (arith, is_loading-set_loading p plugin true w.page, text_eq_iff p plugin)

settle_trigger_lem :
    {J : Type 0} (answer : Result J) (p : Text) (s : State)
    → settle_trigger p answer s ≡ set_loading p false s
unfolding settle_trigger
settle_trigger_lem (ok a) p s = refl
settle_trigger_lem (err m) p s = refl

-- The settling of a pending trigger, seen from any scanner.
released :
    {J : Type 0} (answer : Result J) (p plugin : Text) (w : World) (before after : List Text)
    → times plugin w.pending ≡ one_if (is_loading plugin w.page)
    → times p w.pending ≡ one_if (is_loading p w.page)
    → w.pending ≡ before ++ p ∷ after
    → times plugin (before ++ after) ≡ one_if (is_loading plugin (settle_trigger p answer w.page))
released answer p plugin w before after c cp e = rw (settle_trigger_lem answer p w.page) (
    ground (
      arith,
      is_loading-set_loading p plugin false w.page,
      text_eq_iff p plugin,
      ap (times plugin) e,
      times-append plugin p before after,
    ))

module _ (J : Type 0) (clsx : List ClassValue → String) where
  Step-IsConsistent : {w w' : World} → Step J clsx w w' → IsConsistent w → IsConsistent w'
  Step-IsConsistent {w} (listed found pending same) c =
      rw same (λ plugin. c plugin ∙ ap one_if (sym (load-is_loading found w.page plugin)))
  Step-IsConsistent {w} (click p offered same) c = rw same (λ plugin.
      triggered p plugin w (c plugin) (c p)
        (mem-filter_idle w.page p w.page.scanners (rw (events-view_idle clsx w.page) at offered)))
  Step-IsConsistent {w} (settled p answer before after e same) c =
      rw same (λ plugin. released answer p plugin w before after (c plugin) (c p) e)

  -- In every reachable state a scanner has at most one pending trigger, and its flag is on exactly
  -- while it has one, whatever the other scanners do.
  pub Reach-IsTracked : {w : World} → Reach J clsx w → IsConsistent w
  Reach-IsTracked here = unfold is_loading in λ plugin. refl
  Reach-IsTracked (next r st) = Step-IsConsistent st (Reach-IsTracked r)
