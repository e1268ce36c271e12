-- ===== src/Scheduler/Flags.antt =====
-- internal/scheduler/scheduler.go: the jobs whose channel is not closed.
use ar_csent.Prelude.{◌≡◌, refl, true, false, some, [], ◌∷◌, if◌then◌else◌, arith}
use ar_csent.Text.{Text}
use ar_csent.Dict.{Dict, set}
use ar_csent.Scheduler.{Job, start_all, stop_all}

-- No job's channel `stop` is closed.
abbrev pub AllOpen : Dict Job → Type 0
AllOpen [] = Unit
AllOpen ((name, j) ∷ jobs) = (j.stopped ≡ false) × AllOpen jobs

pub set-AllOpen :
    (name : Text) (j : Job) (jobs : Dict Job)
    → j.stopped ≡ false
    → AllOpen jobs
    → AllOpen (set name j jobs)
unfolding set
set-AllOpen name j [] h a = (h, tt)
set-AllOpen name j ((n, k) ∷ jobs) h a = ground (arith, set-AllOpen name j jobs)

pub start_all-AllOpen : (jobs : Dict Job) → AllOpen jobs → AllOpen (start_all jobs)
unfolding start_all
start_all-AllOpen [] a = tt
start_all-AllOpen ((name, j) ∷ jobs) a = (ground arith, start_all-AllOpen jobs a.1)

pub stop_all-some : (jobs : Dict Job) → AllOpen jobs → (d : Dict Job) × (stop_all jobs ≡ some d)
unfolding stop_all
stop_all-some [] a = ([], refl)
stop_all-some ((name, j) ∷ jobs) a =
    let rest = stop_all-some jobs a.1 in
    (
      (name, if j.started then record j { stopped = true; started = false } else j) ∷ rest.0,
      rw rest.1 (ground arith),
    )
