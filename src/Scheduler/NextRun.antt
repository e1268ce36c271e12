-- ===== src/Scheduler/NextRun.antt =====
-- internal/scheduler/scheduler.go: when a job runs next.
use ar_csent.Prelude.{
  ℕ, zero, suc, ◌+◌, ◌≤◌, ◌<◌, ◌≡◌, Option, none, some, arith, ℤ, pos, negsuc, Bool-cases, inl, inr,
  is_empty,
}
use mathlib.Core.Path.{subst}
use ar_csent.Text.{Text, codes}
use ar_csent.GoStrings.{trim_space, trim_prefix}
use ar_csent.Api.{ok}
use ar_csent.Scheduler.Jobs.{
  Spec, interval, cron, Parsers, parse_schedule, of_duration, of_cron, compute_next_run,
}

-- The interval of an accepted schedule.
abbrev HasPositiveInterval : Spec → Type 0
HasPositiveInterval (interval d) = 0 < d
HasPositiveInterval (cron next) = Unit

ok_inj {ℓ} : {A : Type ℓ} {a b : A} → ok a ≡ ok b → a ≡ b
ok_inj h = cc

of_cron-HasPositiveInterval :
    (p : Parsers) (expr : Text) (c : Option (ℕ → ℕ)) {spec : Spec}
    → of_cron p expr c ≡ ok spec
    → HasPositiveInterval spec
of_cron-HasPositiveInterval p expr none h = cc
of_cron-HasPositiveInterval p expr (some next) h = subst HasPositiveInterval (ok_inj h) tt

of_duration-HasPositiveInterval :
    (p : Parsers) (expr : Text) (d : Option ℤ) {spec : Spec}
    → of_duration p expr d ≡ ok spec
    → HasPositiveInterval spec
of_duration-HasPositiveInterval p expr none h = of_cron-HasPositiveInterval p expr (p.cron expr) h
of_duration-HasPositiveInterval p expr (some (pos zero)) h = cc
of_duration-HasPositiveInterval p expr (some (pos (suc n))) h =
    subst HasPositiveInterval (ok_inj h) (omega arith)
of_duration-HasPositiveInterval p expr (some (negsuc n)) h = cc

parse_schedule-HasPositiveInterval :
    (p : Parsers) (expr : Text) {spec : Spec}
    → parse_schedule p expr ≡ ok spec
    → HasPositiveInterval spec
unfolding parse_schedule
parse_schedule-HasPositiveInterval p expr h = elim (Bool-cases (is_empty (trim_space expr))) [
  | inl empty ↦ cc (rw empty at h)
  | inr given ↦
      of_duration-HasPositiveInterval p (trim_prefix (trim_space expr) (codes "@every "))
        (p.duration (trim_prefix (trim_space expr) (codes "@every "))) (rw given at h)
]

-- A job with an accepted interval schedule, which ran before and not after now, runs next after now,
-- at most the interval later, and exactly the interval after its last run if that is yet to come.
pub compute_next_run_bounds :
    (p : Parsers) (expr : Text) (d last_run now : ℕ)
    → parse_schedule p expr ≡ ok (interval d)
    → 0 < last_run
    → last_run ≤ now
    → (now < compute_next_run (interval d) last_run now)
      × (compute_next_run (interval d) last_run now ≤ now + d)
      × (now < last_run + d → compute_next_run (interval d) last_run now ≡ last_run + d)
unfolding compute_next_run
compute_next_run_bounds p expr d last_run now accepted ran past =
    let positive : 0 < d = parse_schedule-HasPositiveInterval p expr accepted in ground arith
