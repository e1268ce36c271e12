-- ===== src/Detection/Windows.antt =====
-- internal/detection/correlation.go: what the events of a correlator are after a run of calls, and
-- when a call gives a finding.
use ar_csent.Prelude.{
  ℕ, ◌≤◌, ◌≡◌, ◌≢◌, ◌↔◌, refl, sym, ◌∙◌, ap, List, [], ◌∷◌, ◌++◌, length, if◌then◌else◌, ℤ, arith,
  append-nil, append_assoc, is_empty,
}
use ar_csent.Text.{Text}
use ar_csent.Results.{Finding, ScanResult}
use ar_csent.Detection.Distinct.{distinct_scanners, length-unique}
use ar_csent.Detection.Pruning.{recent, prune-eq-recent, prune-append, prune-prune}
use ar_csent.Detection.Correlation.{
  Event, Correlator, positive_or, new_correlator, prune, unique, elapsed, Evidence, trigger, noted,
  add,
}

module _ {J : Type 0} where
  -- Calls of `Add`, each at its time, in the order of these, from a time on.
  abbrev pub Ascending : ℕ → List (ℕ × ScanResult ℕ J) → Type 0
  Ascending from [] = Unit
  Ascending from ((now, res) ∷ calls) = (from ≤ now) × Ascending now calls

  -- All results with findings, as events.
  abbrev pub all_events : List (ℕ × ScanResult ℕ J) → List Event
  all_events [] = []
  all_events ((now, res) ∷ calls) =
      (if is_empty res.findings then [] else record { at = now; scanner = res.scanner_name } ∷ [])
      ++ all_events calls

  -- The time of the last call that has findings, or a time before all calls.
  abbrev pub last_noted : ℕ → List (ℕ × ScanResult ℕ J) → ℕ
  last_noted from [] = from
  last_noted from ((now, res) ∷ calls) =
      last_noted (if is_empty res.findings then from else now) calls

module _ {J : Type 0} (ev : Evidence J) where
  abbrev pub add_all : List (ℕ × ScanResult ℕ J) → Correlator → Correlator
  add_all [] c = c
  add_all ((now, res) ∷ calls) c = add_all calls (add ev now res c).1

  -- The events of a correlator, after some calls, the last one that has findings at this time.
  record Tracks (events : List Event) (last : ℕ) (c d : Correlator) : Type 0 where
    recent : d.events ≡ prune c.window last events
    window : d.window ≡ c.window
    min_scan : d.min_scan ≡ c.min_scan
    cooldown : d.cooldown ≡ c.cooldown

  trigger-keeps :
      (now : ℕ) (c : Correlator)
      → ((trigger ev now c).1.events ≡ c.events)
        × ((trigger ev now c).1.window ≡ c.window)
        × ((trigger ev now c).1.min_scan ≡ c.min_scan)
        × ((trigger ev now c).1.cooldown ≡ c.cooldown)
  unfolding trigger
  trigger-keeps now c = ground arith

  noted-Tracks :
      (before : List Event) (last now : ℕ) (name : Text) (c d : Correlator)
      → last ≤ now
      → Tracks before last c d
      → Tracks
          (before ++ record { at = now; scanner = name } ∷ [])
          now
          c
          (trigger ev now (noted now name d)).1
  noted-Tracks before last now name c d later t =
      let k = trigger-keeps now (noted now name d) in
      let e : List Event = record { at = now; scanner = name } ∷ [] in
      record {
        recent =
            k.0
            ∙ rw t.window (
                rw t.recent (
                  prune-append c.window now (prune c.window last before) e
                  ∙ rw (prune-prune c.window last now before later)
                      (sym (prune-append c.window now before e))));
        window = k.1 ∙ t.window;
        min_scan = k.2 ∙ t.min_scan;
        cooldown = k.3 ∙ t.cooldown;
      }

  add-Tracks :
      (before : List Event) (last now : ℕ) (res : ScanResult ℕ J) (c d : Correlator)
      → last ≤ now
      → Tracks before last c d
      → Tracks
          (before
            ++ (if is_empty res.findings
                then []
                else record { at = now; scanner = res.scanner_name } ∷ []))
          (if is_empty res.findings then last else now)
          c
          (add ev now res d).1
  unfolding add
  add-Tracks before last now res c d later t = on_findings res.findings refl
    where
      on_findings :
          (findings : List (Finding J))
          → res.findings ≡ findings
          → Tracks
              (before
                ++ (if is_empty res.findings
                    then []
                    else record { at = now; scanner = res.scanner_name } ∷ []))
              (if is_empty res.findings then last else now)
              c
              (add ev now res d).1
      on_findings [] same = rw same (rw (append-nil before) t)
      on_findings (f ∷ findings) same =
          rw same (noted-Tracks before last now res.scanner_name c d later t)

  add_all-Tracks_from :
      (calls : List (ℕ × ScanResult ℕ J)) (before : List Event) (last from : ℕ) (c d : Correlator)
      → last ≤ from
      → Ascending from calls
      → Tracks before last c d
      → Tracks (before ++ all_events calls) (last_noted last calls) c (add_all calls d)
  add_all-Tracks_from [] before last from c d earlier times t = rw (append-nil before) t
  add_all-Tracks_from ((now, res) ∷ calls) before last from c d earlier times t =
      simp append_assoc at (
        add_all-Tracks_from calls
          (before
            ++ (if is_empty res.findings
                then []
                else record { at = now; scanner = res.scanner_name } ∷ []))
          (if is_empty res.findings then last else now) now c (add ev now res d).1
          (ground (arith, times.0)) times.1
          (add-Tracks before last now res c d (omega (arith, times.0)) t))

  trigger-raises_iff :
      (now : ℕ) (c : Correlator)
      → ((trigger ev now c).0 ≢ [])
        ↔ ((c.min_scan ≤ length (unique c.events)) × (c.cooldown ≤ elapsed now c.last_triggered))
  unfolding trigger
  trigger-raises_iff now c = ground arith

  -- When `Add` gives a finding, told by the events from before and the new one.
  add-raises_from :
      (before : List Event) (last now : ℕ) (res : ScanResult ℕ J) (c d : Correlator)
      → last ≤ now
      → Tracks before last c d
      → ((add ev now res d).0 ≢ []) ↔ (
          (res.findings ≢ [])
          × (c.min_scan
              ≤ distinct_scanners (
                  prune c.window now
                    (before ++ record { at = now; scanner = res.scanner_name } ∷ [])))
          × (c.cooldown ≤ elapsed now d.last_triggered))
  unfolding add
  add-raises_from before last now res c d later t = on_findings res.findings refl
    where
      e : List Event
      e = record { at = now; scanner = res.scanner_name } ∷ []

      counted :
          length (unique (noted now res.scanner_name d).events)
          ≡ distinct_scanners (prune c.window now (before ++ e))
      counted =
          length-unique (noted now res.scanner_name d).events
          ∙ ap distinct_scanners (
              sym (trigger-keeps now (noted now res.scanner_name d)).0
              ∙ (noted-Tracks before last now res.scanner_name c d later t).recent)

      on_findings :
          (findings : List (Finding J))
          → res.findings ≡ findings
          → ((add ev now res d).0 ≢ []) ↔ (
              (res.findings ≢ [])
              × (c.min_scan ≤ distinct_scanners (prune c.window now (before ++ e)))
              × (c.cooldown ≤ elapsed now d.last_triggered))
      on_findings [] same = rw same (ground arith)
      on_findings (f ∷ findings) same = rw same (
          ground (
            arith,
            trigger-raises_iff now (noted now res.scanner_name d),
            counted,
            t.min_scan,
            t.cooldown,
          ))

  Ascending-append :
      (calls : List (ℕ × ScanResult ℕ J)) (last from now : ℕ) (res : ScanResult ℕ J)
      → last ≤ from
      → Ascending from (calls ++ (now, res) ∷ [])
      → Ascending from calls × (last_noted last calls ≤ now)
  Ascending-append [] last from now res earlier h = (tt, omega arith)
  Ascending-append ((at, r) ∷ calls) last from now res earlier h =
      let rest =
        Ascending-append calls (if is_empty r.findings then last else at) at now res
          (ground (arith, h.0)) h.1 in
      ((h.0, rest.0), rest.1)

  -- After calls in the order of their times, `Add` gives a finding exactly if the result has
  -- findings, at least the configured number of different scanners have reported findings, this
  -- result included, at times later than the window before now, and the cooldown has passed since the
  -- last time that it did. A configured value that is not positive stands for its default.
  pub add-raises_iff :
      (window min_scanners cooldown : ℤ) (calls : List (ℕ × ScanResult ℕ J)) (now : ℕ)
      (res : ScanResult ℕ J)
      → Ascending 0 (calls ++ (now, res) ∷ [])
      → ((add ev now res (add_all calls (new_correlator window min_scanners cooldown))).0 ≢ []) ↔ (
          (res.findings ≢ [])
          × (positive_or 2 min_scanners
              ≤ distinct_scanners (
                  recent
                    (positive_or 300000000000 window)
                    now
                    (all_events calls ++ record { at = now; scanner = res.scanner_name } ∷ [])))
          × (positive_or (positive_or 300000000000 window) cooldown
              ≤ elapsed now
                  (add_all calls (new_correlator window min_scanners cooldown)).last_triggered))
  unfolding new_correlator
  add-raises_iff window min_scanners cooldown calls now res times =
      let c = new_correlator window min_scanners cooldown in
      let h = Ascending-append calls 0 0 now res (omega arith) times in
      rw (← prune-eq-recent (positive_or 300000000000 window) now _) (
        add-raises_from (all_events calls) (last_noted 0 calls) now res c (add_all calls c) h.1 (
          add_all-Tracks_from calls [] 0 0 c c (omega arith) h.0 (record {
            recent = unfold prune in refl;
            window = refl;
            min_scan = refl;
            cooldown = refl;
          })))
