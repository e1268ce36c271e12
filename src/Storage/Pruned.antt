-- ===== src/Storage/Pruned.antt =====
-- internal/storage/results.go and internal/detection/baseline.go: one value before and after a pruning.
use ar_csent.Prelude.{
  ◌<◌, ◌≤◌, ◌≢◌, ◌⊎◌, ap, ℕ, ◌≡◌, refl, inl, inr, if◌then◌else◌, Bool-cases, arith,
}
use ar_csent.Api.{Result, ok}
use ar_csent.Storage.{Found, found, missing, broken}
use ar_csent.Storage.Stored.{Result-cases}
use ar_csent.Storage.Buckets.{Codec, is_old, is_before}

-- What stays of a value: nothing of one with a time before the cutoff that is not the zero time.
abbrev pub remains : {A : Type 0} → Codec A → (A → ℕ) → ℕ → Found → Found
remains codec time cutoff (found raw) =
    if is_old codec time cutoff (codec.decode raw) then missing else found raw
remains codec time cutoff missing = missing
remains codec time cutoff (broken text) = broken text

ok_inj : {A : Type 0} (a b : A) → ◌≡◌ {A = Result A} (ok a) (ok b) → a ≡ b
ok_inj a b e = cc e

-- A value before and after a pruning: it is gone exactly if it is decoded to something whose time is not
-- the zero time and is before the cutoff.
abbrev pub Pruned : {A : Type 0} → Codec A → (A → ℕ) → ℕ → Found → Found → Type 0
Pruned {A} codec time cutoff (found raw) after =
    ((after ≡ missing) × ((a : A) × (codec.decode raw ≡ ok a) × (time a ≢ 0) × (time a < cutoff)))
    ⊎ ((after ≡ found raw) × ((a : A) → codec.decode raw ≡ ok a → time a ≢ 0 → cutoff ≤ time a))
Pruned codec time cutoff missing after = after ≡ missing
Pruned codec time cutoff (broken text) after = after ≡ broken text

pub remains-Pruned :
    {A : Type 0} (codec : Codec A) (time : A → ℕ) (cutoff : ℕ) (before : Found)
    → Pruned codec time cutoff before (remains codec time cutoff before)
remains-Pruned codec time cutoff missing = refl
remains-Pruned codec time cutoff (broken text) = refl
remains-Pruned codec time cutoff (found raw) = elim (Result-cases (codec.decode raw)) [
  | inl (a, e) ↦ elim (Bool-cases (is_before cutoff (time a))) [
    | inl old ↦ rw (e, old) (inl (refl, (a, refl, ground (arith, old), ground (arith, old))))
    | inr new ↦ rw (e, new) (inr (refl, λ b q. ground (arith, new, ap time (ok_inj a b q))))
  ]
  | inr (text, e) ↦ rw e (inr (refl, λ b q. cc q))
]
