-- ===== src/Scheduler/Jobs.antt =====
-- internal/scheduler/scheduler.go: the configuration of a job, its schedule, and the time of its next
-- run. Times are nanoseconds since Go's zero time, which is 0; durations are nanoseconds.
use ar_csent.Prelude.{
  ℕ, zero, suc, ◌+◌, Bool, not, ◌&&◌, Option, none, some, ◌++◌, ltb, ◌==◌, is_empty, if◌then◌else◌,
  ℤ, pos, negsuc,
}
use ar_csent.Text.{Text, codes}
use ar_csent.Api.{Result, ok, err}
use ar_csent.GoStrings.{trim_space, trim_prefix}

-- As it is given, with numbers of either sign, and as `AddJob` keeps it, with natural ones.
pub record JobConfig (N : Type 0) : Type 0 where
  pub name : Text
  pub plugin : Text
  pub schedule : Text
  pub timeout : N
  pub max_retries : N
  pub retry_backoff : N
  pub retry_max : N
  pub allow_overlap : Bool
  pub run_on_start : Bool

-- `scheduleSpec`; a cron schedule is its `Next`.
pub data Spec : Type 0 where
  interval : ℕ → Spec
  cron : (ℕ → ℕ) → Spec

-- `time.ParseDuration`, the parser of the package cron, and the verb `%q` of fmt.
pub record Parsers : Type 0 where
  pub duration : Text → Option ℤ
  pub cron : Text → Option (ℕ → ℕ)
  pub quote : Text → Text

abbrev positive_or : ℕ → ℤ → ℕ
positive_or default (pos zero) = default
positive_or default (pos (suc n)) = suc n
positive_or default (negsuc n) = default

abbrev at_least_zero : ℤ → ℕ
at_least_zero (pos n) = n
at_least_zero (negsuc n) = 0

abbrev pub second : ℕ
second = 1000000000

-- The defaults of `AddJob`.
unfoldable pub normalize : JobConfig ℤ → JobConfig ℕ
normalize cfg = record {
  name = cfg.name;
  plugin = cfg.plugin;
  schedule = cfg.schedule;
  timeout = positive_or 120000000000 cfg.timeout;
  max_retries = at_least_zero cfg.max_retries;
  retry_backoff = positive_or 2000000000 cfg.retry_backoff;
  retry_max = positive_or 30000000000 cfg.retry_max;
  allow_overlap = cfg.allow_overlap;
  run_on_start = cfg.run_on_start;
}

abbrev pub unsupported : Parsers → Text → Text
unsupported p expr =
    codes "unsupported schedule " ++ (p.quote expr ++ codes " (use duration or cron)")

abbrev pub of_cron : Parsers → Text → Option (ℕ → ℕ) → Result Spec
of_cron p expr none = err (unsupported p expr)
of_cron p expr (some next) = ok (cron next)

abbrev pub of_duration : Parsers → Text → Option ℤ → Result Spec
of_duration p expr none = of_cron p expr (p.cron expr)
of_duration p expr (some (pos zero)) = err (codes "schedule interval must be positive")
of_duration p expr (some (pos (suc n))) = ok (interval (suc n))
of_duration p expr (some (negsuc n)) = err (codes "schedule interval must be positive")

abbrev pub parse_expr : Parsers → Text → Result Spec
parse_expr p expr = of_duration p expr (p.duration expr)

unfoldable pub parse_schedule : Parsers → Text → Result Spec
unfolding trim_space trim_prefix
parse_schedule p expr =
    if is_empty (trim_space expr)
    then err (codes "schedule is required")
    else parse_expr p (trim_prefix (trim_space expr) (codes "@every "))

-- `computeNextRun`, with the time of the last run.
unfoldable pub compute_next_run : Spec → ℕ → ℕ → ℕ
compute_next_run (interval d) last_run now =
    if not (last_run == 0) && ltb now (last_run + d) then last_run + d else now + d
compute_next_run (cron next) last_run now = next now
