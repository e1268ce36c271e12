-- ===== src/Server/Metrics/Entries.antt =====
-- What the metrics page means to the client: each gauge that the daemon writes is an entry of the
-- object that `getMetrics` returns.
use ar_csent.Prelude.{
  ℕ, Option, none, some, List, [], ◌∷◌, ◌++◌, ℤ, pos, All, ◌≡◌, refl, false, ◌∙◌, All-append, ap,
  if◌then◌else◌,
}
use mathlib.Core.Option
use ar_csent.Text.{Text, text_eq}
use ar_csent.Number.{Number}
use ar_csent.Dict.{Dict, get, set}
use ar_csent.Dict.Laws.{get-set, get-set_self}
use ar_csent.Api.Metrics.{parse_metrics}
use ar_csent.Api.Metrics.Lines.{number_of, entries}
use ar_csent.Server.Gauge
use ar_csent.Server.Metrics.{SignatureStats, Stats, flag, build_metrics}
use ar_csent.Server.Metrics.Names.{FitsInt64, parse_metrics-build_metrics}
use ar_csent.Server.Metrics.Page.{counter, results, time, signatures, gauges}

-- Reading one entry: the segments of the page that do not name it leave it alone.
abbrev Skips : Text → List (Text × ℤ) → Type 0
Skips j = All (λ g. text_eq g.0 j ≡ false)

get-entries_skip :
    (j : Text) (d : Dict Number) (gs : List (Text × ℤ))
    → Skips j gs
    → get j (entries d gs) ≡ get j d
get-entries_skip j d [] h = refl
get-entries_skip j d ((name, value) ∷ gs) h =
    get-entries_skip j (set name (number_of value) d) gs h.1
    ∙ get-set name j (number_of value) d
    ∙ ap (λ b. if b then some (number_of value) else get j d) h.0

entries-append :
    (d : Dict Number) (xs ys : List (Text × ℤ)) → entries d (xs ++ ys) ≡ entries (entries d xs) ys
entries-append d [] ys = refl
entries-append d ((name, value) ∷ xs) ys = entries-append (set name (number_of value) d) xs ys

counter-Skips : (j name : Text) (o : Option ℕ) → text_eq name j ≡ false → Skips j (counter name o)
counter-Skips j name none h = tt
counter-Skips j name (some n) h = (h, tt)

time-Skips : (j name : Text) (o : Option ℤ) → text_eq name j ≡ false → Skips j (time name o)
time-Skips j name none h = tt
time-Skips j name (some n) h = (h, tt)

-- The counters of the dashboard's cards, which no signature gauge overwrites.
abbrev IsCard : Text → Type 0
IsCard j =
    (text_eq Gauge.signatures_sources_total j ≡ false)
    × (text_eq Gauge.signatures_sources_ok_total j ≡ false)
    × (text_eq Gauge.signatures_last_run_timestamp_seconds j ≡ false)
    × (text_eq Gauge.signatures_next_run_timestamp_seconds j ≡ false)

signatures-Skips : (j : Text) (o : Option SignatureStats) → IsCard j → Skips j (signatures o)
signatures-Skips j none h = tt
signatures-Skips j (some s) h = (
  h.0,
  (
    h.1,
    All-append _ (time Gauge.signatures_last_run_timestamp_seconds s.last_run) _
        (time-Skips j _ s.last_run h.2) (time-Skips j _ s.next_run h.3),
  ),
)

abbrev pub count : ℕ → Number
count n = number_of (pos n)

-- The entries of a whole page, part by part.
abbrev head_entries : Stats → Dict Number
head_entries s =
    entries [] ((Gauge.up, pos 1) ∷ (Gauge.running_as_root, flag s.running_as_root) ∷ [])

entries-gauges :
    (s : Stats)
    → entries [] (gauges s)
      ≡ entries
          (entries
            (entries
              (entries (head_entries s) (counter Gauge.plugins_total s.plugins))
              (counter Gauge.jobs_total s.jobs))
            (results s.results))
          (signatures s.signatures)
entries-gauges s =
    entries-append _ (counter Gauge.plugins_total s.plugins) _
    ∙ entries-append _ (counter Gauge.jobs_total s.jobs) _
    ∙ entries-append _ (results s.results) (signatures s.signatures)

get-results :
    (o : Option (ℕ × ℕ)) (d : Dict Number)
    → get Gauge.results_total d ≡ none
    → get Gauge.findings_total d ≡ none
    → (get Gauge.results_total (entries d (results o)) ≡ Option.map (λ r. count r.0) o)
      × (get Gauge.findings_total (entries d (results o)) ≡ Option.map (λ r. count r.1) o)
unfolding text_eq
get-results none d p q = (p, q)
get-results (some r) d p q = (
  get-set Gauge.findings_total Gauge.results_total _ _ ∙ get-set_self Gauge.results_total _ d,
  get-set_self Gauge.findings_total _ _,
)

get-counter :
    (name : Text) (o : Option ℕ) (d : Dict Number)
    → get name d ≡ none
    → get name (entries d (counter name o)) ≡ Option.map count o
get-counter name none d h = h
get-counter name (some n) d h = get-set_self name _ d

results-Skips :
    (j : Text) (o : Option (ℕ × ℕ))
    → text_eq Gauge.results_total j ≡ false
    → text_eq Gauge.findings_total j ≡ false
    → Skips j (results o)
results-Skips j none h k = tt
results-Skips j (some r) h k = (h, (k, tt))

-- No counter before it names the results.
abbrev counted : Stats → Dict Number
counted s =
    entries (entries (head_entries s) (counter Gauge.plugins_total s.plugins))
      (counter Gauge.jobs_total s.jobs)

not_counted :
    (j : Text) (s : Stats)
    → text_eq Gauge.plugins_total j ≡ false
    → text_eq Gauge.jobs_total j ≡ false
    → get j (head_entries s) ≡ none
    → get j (counted s) ≡ none
not_counted j s h k e =
    get-entries_skip j _ (counter Gauge.jobs_total s.jobs) (counter-Skips j _ s.jobs k)
    ∙ get-entries_skip j _ (counter Gauge.plugins_total s.plugins) (counter-Skips j _ s.plugins h)
    ∙ e

on_results :
    (s : Stats)
    → (get Gauge.results_total (entries (counted s) (results s.results))
        ≡ Option.map (λ r. count r.0) s.results)
      × (get Gauge.findings_total (entries (counted s) (results s.results))
          ≡ Option.map (λ r. count r.1) s.results)
unfolding text_eq get set
on_results s =
    get-results s.results (counted s) (not_counted _ s refl refl refl)
      (not_counted _ s refl refl refl)

-- The counters that the dashboard shows, read from the metrics page of the daemon: each is the
-- number that the daemon counted, and is missing exactly when the daemon has no such part. All
-- numbers on the page are of at most 2 ^ 63.
pub get-build_metrics :
    (s : Stats)
    → FitsInt64 s
    → (get Gauge.plugins_total (parse_metrics (build_metrics s)) ≡ Option.map count s.plugins)
      × (get Gauge.jobs_total (parse_metrics (build_metrics s)) ≡ Option.map count s.jobs)
      × (get Gauge.results_total (parse_metrics (build_metrics s))
          ≡ Option.map (λ r. count r.0) s.results)
      × (get Gauge.findings_total (parse_metrics (build_metrics s))
          ≡ Option.map (λ r. count r.1) s.results)
unfolding text_eq get set
get-build_metrics s h =
    rw (parse_metrics-build_metrics s h, entries-gauges s)
      (
        get-entries_skip Gauge.plugins_total _ (signatures s.signatures)
              (signatures-Skips _ s.signatures (refl, refl, refl, refl))
            ∙ get-entries_skip Gauge.plugins_total _ (results s.results)
                (results-Skips _ s.results refl refl)
            ∙ get-entries_skip Gauge.plugins_total _ (counter Gauge.jobs_total s.jobs)
                (counter-Skips _ _ s.jobs refl)
            ∙ get-counter Gauge.plugins_total s.plugins (head_entries s) refl,
        get-entries_skip Gauge.jobs_total _ (signatures s.signatures)
              (signatures-Skips _ s.signatures (refl, refl, refl, refl))
            ∙ get-entries_skip Gauge.jobs_total _ (results s.results)
                (results-Skips _ s.results refl refl)
            ∙ get-counter Gauge.jobs_total s.jobs _ (
                get-entries_skip Gauge.jobs_total _ (counter Gauge.plugins_total s.plugins)
                  (counter-Skips _ _ s.plugins refl)),
        get-entries_skip Gauge.results_total _ (signatures s.signatures)
              (signatures-Skips _ s.signatures (refl, refl, refl, refl))
            ∙ (on_results s).0,
        get-entries_skip Gauge.findings_total _ (signatures s.signatures)
              (signatures-Skips _ s.signatures (refl, refl, refl, refl))
            ∙ (on_results s).1,
      )
