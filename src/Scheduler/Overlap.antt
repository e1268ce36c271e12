-- ===== src/Scheduler/Overlap.antt =====
-- internal/scheduler/scheduler.go, `executeJob` and its flag `running`: the goroutines of one job, of
-- which a `Start` after a `Stop` makes a further one while the older ones may still execute. The
-- flag is the job's: the jobs that `ReplaceJobs` makes have flags of their own.
use ar_csent.Prelude.{
  ℕ, suc, ◌+◌, ◌≤◌, ◌≡◌, refl, Bool, true, false, List, [], ◌∷◌, if◌then◌else◌, arith,
}

-- `executing` is between taking the flag, where overlaps are not allowed, and giving it back.
pub data Phase : Type 0 where
  waiting : Phase
  executing : Phase

pub record Goroutines : Type 0 where
  pub running : Bool
  pub phases : List Phase

abbrev pub is_executing : Phase → Bool
is_executing waiting = false
is_executing executing = true

-- One goroutine changes its phase, the others stay as they are.
pub data Turns (a b : Phase) : List Phase → List Phase → Type 0 where
  here : (phases : List Phase) → Turns a b (a ∷ phases) (b ∷ phases)
  there :
      (c : Phase) {before after : List Phase}
      → Turns a b before after
      → Turns a b (c ∷ before) (c ∷ after)

-- A step of the goroutines of a job with this `allow_overlap`: a goroutine starts to execute the
-- job, which takes the flag by a compare-and-swap or needs none; it skips the execution, as the flag
-- is taken; it ends the execution, by a return or a panic alike; and `Start` adds a goroutine. A goroutine
-- that ends waits for ever here.
pub data Step (allow_overlap : Bool) : Goroutines → Goroutines → Type 0 where
  take :
      {before after : List Phase}
      → allow_overlap ≡ false
      → Turns waiting executing before after
      → Step allow_overlap
          (record { running = false; phases = before })
          (record { running = true; phases = after })
  overlap :
      (running : Bool) {before after : List Phase}
      → allow_overlap ≡ true
      → Turns waiting executing before after
      → Step allow_overlap
          (record { running = running; phases = before })
          (record { running = running; phases = after })
  skip :
      (phases : List Phase)
      → allow_overlap ≡ false
      → Step allow_overlap
          (record { running = true; phases = phases })
          (record { running = true; phases = phases })
  give_back :
      (running : Bool) {before after : List Phase}
      → allow_overlap ≡ false
      → Turns executing waiting before after
      → Step allow_overlap
          (record { running = running; phases = before })
          (record { running = false; phases = after })
  return :
      (running : Bool) {before after : List Phase}
      → allow_overlap ≡ true
      → Turns executing waiting before after
      → Step allow_overlap
          (record { running = running; phases = before })
          (record { running = running; phases = after })
  spawn :
      (running : Bool) (phases : List Phase)
      → Step allow_overlap
          (record { running = running; phases = phases })
          (record { running = running; phases = waiting ∷ phases })

pub data Steps (allow_overlap : Bool) : Goroutines → Goroutines → Type 0 where
  stay : (g : Goroutines) → Steps allow_overlap g g
  step :
      {g h k : Goroutines}
      → Steps allow_overlap g h
      → Step allow_overlap h k
      → Steps allow_overlap g k

-- How many goroutines execute the job.
abbrev pub count_executing : List Phase → ℕ
count_executing [] = 0
count_executing (p ∷ phases) = (if is_executing p then 1 else 0) + count_executing phases

abbrev pub new_goroutines : Goroutines
new_goroutines = record { running = false; phases = [] }

-- The flag says exactly whether a goroutine executes the job, and there is one at most.
abbrev pub IsExclusive : Goroutines → Type 0
IsExclusive g = count_executing g.phases ≡ (if g.running then 1 else 0)

taken :
    {before after : List Phase}
    → Turns waiting executing before after
    → count_executing after ≡ suc (count_executing before)
taken (here phases) = omega arith
taken (there c t) = omega (arith, taken t)

given :
    {before after : List Phase}
    → Turns executing waiting before after
    → count_executing before ≡ suc (count_executing after)
given (here phases) = omega arith
given (there c t) = omega (arith, given t)

Step-IsExclusive : {g h : Goroutines} → Step false g h → IsExclusive g → IsExclusive h
Step-IsExclusive (take never t) e = omega (arith, taken t)
Step-IsExclusive (overlap running never t) e = absurd (cc)
Step-IsExclusive (skip phases never) e = e
Step-IsExclusive (give_back running never t) e = ground (arith, given t)
Step-IsExclusive (return running never t) e = absurd (cc)
Step-IsExclusive (spawn running phases) e = ground arith

Steps-IsExclusive : {g h : Goroutines} → Steps false g h → IsExclusive g → IsExclusive h
Steps-IsExclusive (stay g) e = e
Steps-IsExclusive (step before s) e = Step-IsExclusive s (Steps-IsExclusive before e)

-- Where overlaps are not allowed, at any time at most one goroutine of a job executes it, and a
-- goroutine that finds the flag taken skips an execution only while another one executes the job.
pub Steps-exclusive :
    {g : Goroutines}
    → Steps false new_goroutines g
    → (count_executing g.phases ≤ 1) × (g.running ≡ true → count_executing g.phases ≡ 1)
Steps-exclusive s = let e = Steps-IsExclusive s refl in (ground arith, ground arith)
