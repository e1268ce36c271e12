-- ===== src/Scheduler/Attempts.antt =====
-- internal/scheduler/scheduler.go, `executeWithRetry` and `runOnce`: the attempts of one execution.
use ar_csent.Prelude.{ℕ, zero, suc, ◌-◌, ◌*◌, ◌%◌, ◌^◌, List, [], ◌∷◌, ltb, if◌then◌else◌, pos}
use ar_csent.Text.{Text, codes}
use ar_csent.Api.{Result, ok, err}
use ar_csent.Results.{ScanResult}
use ar_csent.Scheduler.Jobs.{JobConfig}

-- What `runOnce` gives: a result, an error (also where the plugin is not registered), or neither,
-- as when the plugin returns nothing or panics.
pub data RunOutcome (R : Type 0) : Type 0 where
  done : R → RunOutcome R
  failed : Text → RunOutcome R
  no_result : RunOutcome R

-- One attempt: when it started and ended, and what it gave.
pub record Attempt (R : Type 0) : Type 0 where
  pub started : ℕ
  pub finished : ℕ
  pub outcome : RunOutcome R

-- What all attempts come to, how many there were, and the sleeps between them.
pub record Execution (R : Type 0) : Type 0 where
  pub result : Result R
  pub attempts : ℕ
  pub sleeps : List ℕ

-- `RetryBackoff * time.Duration(1<<attempt)`, at most `RetryMax`, on 64-bit integers: a product that
-- overflows into a negative one sleeps not at all.
unfoldable pub backoff : JobConfig ℕ → ℕ → ℕ
backoff cfg attempt =
    let d = (cfg.retry_backoff * 2 ^ attempt) % 2 ^ 64 in
    if ltb d (2 ^ 63) then (if ltb cfg.retry_max d then cfg.retry_max else d) else 0

module _ {J : Type 0} where
  -- The times of the attempt are put into the result.
  abbrev pub stamp : ℕ → ℕ → ScanResult ℕ J → ScanResult ℕ J
  stamp started finished res = record res {
    started_at = started;
    finished_at = finished;
    duration = pos (finished - started);
  }

  -- After the last attempt: `lastErr` is the error of this one, or "job failed" where it has none.
  abbrev pub last_attempt : Attempt (ScanResult ℕ J) → Execution (ScanResult ℕ J)
  last_attempt a = elim a.outcome [
    | done res ↦ record { result = ok (stamp a.started a.finished res); attempts = 1; sleeps = [] }
    | failed message ↦ record { result = err message; attempts = 1; sleeps = [] }
    | no_result ↦ record { result = err (codes "job failed"); attempts = 1; sleeps = [] }
  ]

  -- A failed attempt in front of the others.
  abbrev pub retried : ℕ → Execution (ScanResult ℕ J) → Execution (ScanResult ℕ J)
  retried pause rest = record {
    result = rest.result;
    attempts = suc rest.attempts;
    sleeps = pause ∷ rest.sleeps;
  }

  -- The loop from an attempt on, with so many retries left; `run` gives each attempt.
  unfoldable pub execute_from :
      (ℕ → Attempt (ScanResult ℕ J)) → JobConfig ℕ → ℕ → ℕ → Execution (ScanResult ℕ J)
  unfolding backoff
  execute_from run cfg zero attempt = last_attempt (run attempt)
  execute_from run cfg (suc left) attempt = elim (run attempt).outcome [
    | done res ↦ record {
      result = ok (stamp (run attempt).started (run attempt).finished res);
      attempts = 1;
      sleeps = [];
    }
    | failed message ↦ retried (backoff cfg attempt) (execute_from run cfg left (suc attempt))
    | no_result ↦ retried (backoff cfg attempt) (execute_from run cfg left (suc attempt))
  ]

  unfoldable pub execute_with_retry :
      (ℕ → Attempt (ScanResult ℕ J)) → JobConfig ℕ → Execution (ScanResult ℕ J)
  unfolding execute_from
  execute_with_retry run cfg = execute_from run cfg cfg.max_retries 0
