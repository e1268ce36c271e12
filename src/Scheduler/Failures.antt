-- ===== src/Scheduler/Failures.antt =====
-- internal/scheduler/scheduler.go: what a job's state says of the executions so far.
use ar_csent.Prelude.{
  ℕ, suc, ◌+◌, ◌^◌, ◌≤◌, ◌<◌, ◌≡◌, refl, Bool, true, false, not, ◌&&◌, Option, none, some, List, [],
  ◌∷◌, ◌++◌, length, length-append, all, if◌then◌else◌, pos, arith, append_assoc, append-nil,
}
use ar_csent.Text.{Text}
use ar_csent.Scheduler.State.{JobState, no_state, increment, update_state}

-- A finished execution: its time, the status, and the error of a failed one.
pub record Run : Type 0 where
  pub at : ℕ
  pub status : Text
  pub error : Option Text

abbrev pub has_failed : Run → Bool
has_failed r = elim r.error [ none ↦ false | some message ↦ true ]

-- The state after some executions, the first one first.
abbrev pub update_all : List Run → JobState → JobState
update_all [] s = s
update_all (r ∷ runs) s = update_all runs (update_state r.at r.status r.error s)

-- The length of the longest run of failures at the end.
abbrev pub trailing_failures : List Run → ℕ
trailing_failures [] = 0
trailing_failures (r ∷ runs) =
    if all has_failed (r ∷ runs) then length (r ∷ runs) else trailing_failures runs

-- The time of the last execution that passes a test, or the zero time.
abbrev pub last_at : (Run → Bool) → List Run → ℕ
last_at test [] = 0
last_at test (r ∷ runs) =
    let rest = last_at test runs in
    if all (λ x. not (test x)) runs then (if test r then r.at else 0) else rest

-- A state that says what the executions were.
pub record Reports (runs : List Run) (s : JobState) : Type 0 where
  pub last_run : s.last_run ≡ last_at (λ r. true) runs
  pub last_success : s.last_success ≡ last_at (λ r. not (has_failed r)) runs
  pub last_error : s.last_error ≡ last_at has_failed runs
  pub failures : s.consecutive_failures ≡ pos (trailing_failures runs)

all-append :
    (test : Run → Bool) (xs ys : List Run) → all test (xs ++ ys) ≡ (all test xs && all test ys)
all-append test [] ys = refl
all-append test (x ∷ xs) ys = ground (arith, all-append test xs ys)

last_at-append :
    (test : Run → Bool) (runs : List Run) (r : Run)
    → last_at test (runs ++ r ∷ []) ≡ (if test r then r.at else last_at test runs)
last_at-append test [] r = ground arith
last_at-append test (x ∷ runs) r =
    ground (arith, all-append (λ y. not (test y)) runs (r ∷ []), last_at-append test runs r)

trailing_failures-append :
    (runs : List Run) (r : Run)
    → trailing_failures (runs ++ r ∷ [])
      ≡ (if has_failed r then suc (trailing_failures runs) else 0)
trailing_failures-append [] r = ground arith
trailing_failures-append (x ∷ runs) r = ground (
  arith,
  all-append has_failed runs (r ∷ []),
  length-append runs (r ∷ []),
  trailing_failures-append runs r,
)

trailing_failures-le : (runs : List Run) → trailing_failures runs ≤ length runs
trailing_failures-le [] = omega arith
trailing_failures-le (r ∷ runs) = ground (arith, trailing_failures-le runs)

increment-pos : (n : ℕ) → suc n < 2 ^ 63 → increment (pos n) ≡ pos (suc n)
unfolding increment
increment-pos n fits = ground arith

update_state-Reports :
    (runs : List Run) (r : Run) (s : JobState)
    → suc (length runs) < 2 ^ 63
    → Reports runs s
    → Reports (runs ++ r ∷ []) (update_state r.at r.status r.error s)
unfolding update_state
update_state-Reports runs r s fits t = record {
  last_run = ground (arith, last_at-append (λ (x : Run). true) runs r);
  last_success = ground (arith, last_at-append (λ (x : Run). not (has_failed x)) runs r);
  last_error = ground (arith, last_at-append has_failed runs r);
  failures = ground (
    arith,
    trailing_failures-append runs r,
    trailing_failures-le runs,
    increment-pos (trailing_failures runs),
  );
}

update_all-Reports_from :
    (before runs : List Run) (s : JobState)
    → length before + length runs < 2 ^ 63
    → Reports before s
    → Reports (before ++ runs) (update_all runs s)
update_all-Reports_from before [] s fits t = rw (append-nil before) t
update_all-Reports_from before (r ∷ runs) s fits t = simp append_assoc at (
    update_all-Reports_from (before ++ r ∷ []) runs (update_state r.at r.status r.error s)
      (omega (arith, length-append before (r ∷ [])))
      (update_state-Reports before r s (omega arith) t))

-- After any sequence of fewer than 2 ^ 63 executions a job that had no state has the times of the
-- last one, of the last one without an error and of the last one with an error, the zero time where
-- there is none, and counts how many executions at the end failed without a break.
pub update_all-Reports :
    (runs : List Run) → length runs < 2 ^ 63 → Reports runs (update_all runs no_state)
update_all-Reports runs fits =
    update_all-Reports_from [] runs no_state (omega arith)
      (record { last_run = refl; last_success = refl; last_error = refl; failures = refl })

-- Executions that follow others.
pub update_all-append :
    (before runs : List Run) (s : JobState)
    → update_all (before ++ runs) s ≡ update_all runs (update_all before s)
update_all-append [] runs s = refl
update_all-append (r ∷ before) runs s =
    update_all-append before runs (update_state r.at r.status r.error s)
