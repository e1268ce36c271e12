-- ===== src/Scheduler/Retries.antt =====
-- internal/scheduler/scheduler.go: which attempt decides an execution, and how long it sleeps.
use ar_csent.Prelude.{
  ℕ, zero, suc, ◌+◌, ◌*◌, ◌≤◌, ◌<◌, ◌≡◌, refl, sym, ◌∙◌, ap, List, [], ◌∷◌, arith, ◌⊎◌, inl, inr,
  Bool-cases, ==_iff, ◌==◌,
}
use mathlib.Core.Path.{subst}
use ar_csent.Text.{codes}
use ar_csent.Api.{Result, ok, err}
use ar_csent.Results.{ScanResult}
use ar_csent.Scheduler.Jobs.{JobConfig}
use ar_csent.Scheduler.Attempts.{
  RunOutcome, done, failed, no_result, Attempt, Execution, backoff, stamp, last_attempt, retried,
  execute_from, execute_with_retry,
}

abbrev pub IsFailure : {R : Type 0} → RunOutcome R → Type 0
IsFailure (done res) = ⊥
IsFailure (failed message) = Unit
IsFailure no_result = Unit

abbrev pub IsDone : {R : Type 0} → RunOutcome R → Type 0
IsDone (done res) = Unit
IsDone (failed message) = ⊥
IsDone no_result = ⊥

-- The pauses from an attempt on.
abbrev pub backoffs : JobConfig ℕ → ℕ → ℕ → List ℕ
backoffs cfg attempt zero = []
backoffs cfg attempt (suc n) = backoff cfg attempt ∷ backoffs cfg (suc attempt) n

abbrev pub total : List ℕ → ℕ
total [] = 0
total (n ∷ ns) = n + total ns

module _ {J : Type 0} (run : ℕ → Attempt (ScanResult ℕ J)) (cfg : JobConfig ℕ) where
  abbrev pub result_of : Attempt (ScanResult ℕ J) → Result (ScanResult ℕ J)
  result_of a = elim a.outcome [
    | done res ↦ ok (stamp a.started a.finished res)
    | failed message ↦ err message
    | no_result ↦ err (codes "job failed")
  ]

  -- An execution from an attempt on that attempt `k` decides, behind `n` others.
  abbrev pub decided : ℕ → ℕ → ℕ → Execution (ScanResult ℕ J)
  decided attempt n k = record {
    result = result_of (run k);
    attempts = suc n;
    sleeps = backoffs cfg attempt n;
  }

  -- Attempt `k` decides: it is the first one with a result, or the last one.
  pub record Decides (left attempt n k : ℕ) : Type 0 where
    pub behind : k ≡ attempt + n
    pub within : n ≤ left
    pub failures : (i : ℕ) → attempt ≤ i → i < k → IsFailure (run i).outcome
    pub decisive : (n ≡ left) ⊎ IsDone (run k).outcome

  last_attempt-decided : (attempt : ℕ) → last_attempt (run attempt) ≡ decided attempt 0 attempt
  last_attempt-decided attempt = on_outcome (run attempt).outcome refl
    where
      on_outcome :
          (o : RunOutcome (ScanResult ℕ J))
          → (run attempt).outcome ≡ o
          → last_attempt (run attempt) ≡ decided attempt 0 attempt
      on_outcome (done res) e = rw e refl
      on_outcome (failed message) e = rw e refl
      on_outcome no_result e = rw e refl

  -- A retry in front of a decision.
  retried-Decides :
      (left attempt n k : ℕ)
      → IsFailure (run attempt).outcome
      → Decides left (suc attempt) n k
      → Decides (suc left) attempt (suc n) k
  retried-Decides left attempt n k h d = record {
    behind = omega (arith, d.behind);
    within = omega (arith, d.within);
    failures = λ i from to. elim (Bool-cases (i == attempt)) [
      | inl same ↦ subst (λ m. IsFailure (run m).outcome) (sym ((==_iff i attempt).0 same)) h
      | inr other ↦ d.failures i (ground arith) to
    ];
    decisive = elim d.decisive [ inl e ↦ inl (omega arith) | inr fine ↦ inr fine ];
  }

  decide :
      (left attempt : ℕ)
      → (n : ℕ) × (k : ℕ) × Decides left attempt n k
        × (execute_from run cfg left attempt ≡ decided attempt n k)
  unfolding execute_from
  decide zero attempt = (
    0,
    attempt,
    record {
      behind = omega arith;
      within = omega arith;
      failures = λ i from to. absurd (omega arith);
      decisive = inl refl;
    },
    last_attempt-decided attempt,
  )
  decide (suc left) attempt = on_outcome (run attempt).outcome refl (decide left (suc attempt))
    where
      on_outcome :
          (o : RunOutcome (ScanResult ℕ J))
          → (run attempt).outcome ≡ o
          → (n : ℕ) × (k : ℕ) × Decides left (suc attempt) n k
            × (execute_from run cfg left (suc attempt) ≡ decided (suc attempt) n k)
          → (n : ℕ) × (k : ℕ) × Decides (suc left) attempt n k
            × (execute_from run cfg (suc left) attempt ≡ decided attempt n k)
      on_outcome (done res) e rest = (
        0,
        attempt,
        record {
          behind = omega arith;
          within = omega arith;
          failures = λ i from to. absurd (omega arith);
          decisive = inr (subst IsDone (sym e) tt);
        },
        rw (e, execute_from) refl,
      )
      on_outcome (failed message) e (n, k, d, same) = (
        suc n,
        k,
        retried-Decides left attempt n k (subst IsFailure (sym e) tt) d,
        rw (e, execute_from) (ap (retried (backoff cfg attempt)) same),
      )
      on_outcome no_result e (n, k, d, same) = (
        suc n,
        k,
        retried-Decides left attempt n k (subst IsFailure (sym e) tt) d,
        rw (e, execute_from) (ap (retried (backoff cfg attempt)) same),
      )

  -- Exactly one attempt decides an execution, the first one with a result or, if there is none, the
  -- last of one more than the retries: its result or error is returned, "job failed" where it has
  -- neither, and the pauses are those behind the failures in front of it.
  pub execute_with_retry-decided :
      (k : ℕ) × Decides cfg.max_retries 0 k k × (execute_with_retry run cfg ≡ decided 0 k k)
  unfolding execute_with_retry
  execute_with_retry-decided =
      let (n, k, d, same) = decide cfg.max_retries 0 in
      let e : n ≡ k = omega (arith, d.behind) in
      (k, subst (λ m. Decides cfg.max_retries 0 m k) e d, same ∙ ap (λ m. decided 0 m k) e)

backoff-le : (cfg : JobConfig ℕ) (attempt : ℕ) → backoff cfg attempt ≤ cfg.retry_max
unfolding backoff
backoff-le cfg attempt = ground arith

total-backoffs :
    (cfg : JobConfig ℕ) (attempt n : ℕ) → total (backoffs cfg attempt n) ≤ n * cfg.retry_max
total-backoffs cfg attempt zero = omega arith
total-backoffs cfg attempt (suc n) =
    grind (arith, backoff-le cfg attempt, total-backoffs cfg (suc attempt) n)

-- All pauses of an execution together are no longer than the configured number of retries, each of
-- the configured maximum.
pub total-sleeps :
    {J : Type 0} (run : ℕ → Attempt (ScanResult ℕ J)) (cfg : JobConfig ℕ)
    → total (execute_with_retry run cfg).sleeps ≤ cfg.max_retries * cfg.retry_max
total-sleeps run cfg =
    let (k, d, same) = execute_with_retry-decided run cfg in
    let bound = total-backoffs cfg 0 k in
    subst (λ x. total x.sleeps ≤ cfg.max_retries * cfg.retry_max) (sym same)
      (grind (arith, d.within))
