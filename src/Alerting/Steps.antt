-- ===== src/Alerting/Steps.antt =====
-- internal/alerting/engine.go: the engine over time. A step is a call of `Send`, the passing of
-- time, or the worker's taking of the first alert of the queue.
use ar_csent.Prelude.{ℕ, ◌+◌, ◌≡◌, Bool, not, ◌&&◌, List, [], ◌∷◌, if◌then◌else◌}
use ar_csent.Text.{Text}
use ar_csent.Alerting.{Alert, Engine, prepare, is_throttled, send}

-- `passed` records the identifiers that were not throttled, with their times, the newest first.
pub record World (J : Type 0) : Type 0 where
  pub engine : Engine J
  pub now : ℕ
  pub passed : List (Text × ℕ)

module _ {J : Type 0} (hash : Text → Text) where
  abbrev pub passes : ℕ → Alert J → Engine J → Bool
  passes now alert e = e.enabled && not (is_throttled now (prepare hash now alert).id e)

  abbrev pub submit : Alert J → World J → World J
  submit alert w = record {
    engine = send hash w.now alert w.engine;
    now = w.now;
    passed =
        if passes w.now alert w.engine
        then ((prepare hash w.now alert).id, w.now) ∷ w.passed
        else w.passed;
  }

  pub data Step (w : World J) : World J → Type 0 where
    submitted : (alert : Alert J) → Step w (submit alert w)
    waited : (ns : ℕ) → Step w (record w { now = w.now + ns })
    taken :
        (alert : Alert J) (rest : List (Alert J))
        → w.engine.queue ≡ alert ∷ rest
        → Step w (record w { engine = record w.engine { queue = rest } })

  -- The worlds that follow a new engine at some time.
  pub data Reach (e : Engine J) (now : ℕ) : World J → Type 0 where
    here : Reach e now (record { engine = e; now = now; passed = [] })
    next : {w w' : World J} → Reach e now w → Step w w' → Reach e now w'
