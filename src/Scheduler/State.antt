-- ===== src/Scheduler/State.antt =====
-- internal/scheduler/scheduler.go: the state of a job, and its place in the state store. The store
-- (internal/storage) and the encoding (encoding/json) are the interface `StateStore`.
use ar_csent.Prelude.{
  ℕ, zero, suc, ◌-◌, ◌^◌, ◌≡◌, ◌≢◌, Option, none, some, [], ◌==◌, if◌then◌else◌, ℤ, pos, negsuc,
}
use ar_csent.Text.{Text}

pub record JobState : Type 0 where
  pub last_run : ℕ
  pub last_success : ℕ
  pub last_error : ℕ
  pub last_status : Text
  pub last_error_message : Text
  pub consecutive_failures : ℤ

-- `JobState{}`
abbrev pub no_state : JobState
no_state = record {
  last_run = 0;
  last_success = 0;
  last_error = 0;
  last_status = [];
  last_error_message = [];
  consecutive_failures = pos 0;
}

-- `n++` on a 64-bit integer.
unfoldable pub increment : ℤ → ℤ
increment (pos n) = if n == 2 ^ 63 - 1 then negsuc (2 ^ 63 - 1) else pos (suc n)
increment (negsuc zero) = pos 0
increment (negsuc (suc n)) = negsuc n

-- `updateState` up to saving, at a time.
unfoldable pub update_state : ℕ → Text → Option Text → JobState → JobState
unfolding increment
update_state now status none s = record {
  last_run = now;
  last_success = now;
  last_error = s.last_error;
  last_status = status;
  last_error_message = [];
  consecutive_failures = pos 0;
}
update_state now status (some message) s = record {
  last_run = now;
  last_success = s.last_success;
  last_error = now;
  last_status = status;
  last_error_message = message;
  consecutive_failures = increment s.consecutive_failures;
}

-- The bucket "scheduler_state" of a store `S` that holds values `B`, and the encoding of states;
-- `none` is an error. A failing `put` leaves the store as it is, and its error is not looked at.
pub record StateStore (S B : Type 0) : Type 0 where
  pub get_state : Text → S → Option B
  pub put_state : Text → B → S → S
  pub encode : JobState → Option B
  pub decode : B → Option JobState

-- What the package documents, for a store that works; the store refuses an empty name.
pub record IsFaithful {S B : Type 0} (io : StateStore S B) : Type 0 where
  pub get-put_self :
      (name : Text) (b : B) (s : S) → name ≢ [] → io.get_state name (io.put_state name b s) ≡ some b
  pub get-put_ne :
      (name other : Text) (b : B) (s : S)
      → name ≢ other
      → io.get_state other (io.put_state name b s) ≡ io.get_state other s

-- A state that is encoded, and decoded back; times outside the years 0 to 9999 are not.
pub record RoundTrips {S B : Type 0} (io : StateStore S B) (state : JobState) : Type 0 where
  pub bytes : B
  pub encoded : io.encode state ≡ some bytes
  pub decoded_back : io.decode bytes ≡ some state

module _ {S B : Type 0} (io : StateStore S B) where
  abbrev or_no_state : Option JobState → JobState
  or_no_state none = no_state
  or_no_state (some state) = state

  abbrev decoded : Option B → JobState
  decoded none = no_state
  decoded (some b) = or_no_state (io.decode b)

  -- `loadState`: the state that a new job starts with. There may be no store.
  unfoldable pub load_state : Option S → Text → JobState
  load_state none name = no_state
  load_state (some s) name = decoded (io.get_state name s)

  abbrev pub put_encoded : Text → Option B → S → S
  put_encoded name none s = s
  put_encoded name (some b) s = io.put_state name b s

  -- `saveState`
  unfoldable pub save_state : Text → JobState → Option S → Option S
  save_state name state none = none
  save_state name state (some s) = some (put_encoded name (io.encode state) s)
