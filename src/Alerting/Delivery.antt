-- ===== src/Alerting/Delivery.antt =====
-- internal/alerting/engine.go: the attempts of `deliver` at one channel.
use ar_csent.Prelude.{
  ℕ, zero, suc, ◌+◌, ◌≤◌, ◌<◌, ◌≡◌, ◌≢◌, sym, ◌↔◌, refl, Bool, true, false, arith, Bool-cases, inl,
  inr, ap, ◌∙◌,
}
use ar_csent.Alerting.{deliver_from, deliver_to}

-- One of the attempts from the first one on succeeds.
abbrev SucceedsFrom : (ℕ → Bool) → ℕ → ℕ → Type 0
SucceedsFrom fails left attempt = (n : ℕ) × (attempt ≤ n) × (n < attempt + left) × (fails n ≡ false)

later :
    (fails : ℕ → Bool) (attempt n : ℕ)
    → fails attempt ≡ true
    → fails n ≡ false
    → attempt ≤ n
    → suc attempt ≤ n
later fails attempt n failed fine from =
    let differ : n ≢ attempt = λ e. true-ne-false (sym failed ∙ ap fails (sym e) ∙ fine) in
    omega (arith, differ)
  where
    true-ne-false : ◌≢◌ {A = Bool} true false
    true-ne-false = cc

deliver_from_lem :
    (fails : ℕ → Bool) (backoff left attempt : ℕ)
    → ((deliver_from fails backoff left attempt).attempts ≤ left)
      × ((deliver_from fails backoff left attempt).delivered ≡ true
          ↔ SucceedsFrom fails left attempt)
unfolding deliver_from
deliver_from_lem fails backoff zero attempt =
    (omega arith, (λ h. cc, λ (n, from, before, h). absurd (omega arith)))
deliver_from_lem fails backoff (suc left) attempt =
    let rest = deliver_from_lem fails backoff left (suc attempt) in
    elim (Bool-cases (fails attempt)) [
      | inl failed ↦ rw failed (
        omega (arith, rest.0),
        (
          λ h. let (n, from, before, fine) = rest.1.0 h in (n, omega arith, omega arith, fine),
          λ (n, from, before, fine).
              rest.1.1 (n, later fails attempt n failed fine from, omega arith, fine),
        ),
      )
      | inr fine ↦
          rw fine (omega arith, (λ h. (attempt, omega arith, omega arith, fine), λ h. refl))
    ]

-- An alert is tried at a channel at most once more than the configured number of retries, and is
-- delivered exactly if one of these attempts succeeds.
pub delivered-deliver_to_iff :
    (fails : ℕ → Bool) (backoff retry_max : ℕ)
    → ((deliver_to fails backoff retry_max).attempts ≤ suc retry_max)
      × ((deliver_to fails backoff retry_max).delivered ≡ true
          ↔ (n : ℕ) × (n ≤ retry_max) × (fails n ≡ false))
unfolding deliver_to
delivered-deliver_to_iff fails backoff retry_max =
    let all = deliver_from_lem fails backoff (suc retry_max) 0 in
    (
      all.0,
      (
        λ h. let (n, from, before, fine) = all.1.0 h in (n, omega arith, fine),
        λ (n, within, fine). all.1.1 (n, omega arith, omega arith, fine),
      ),
    )
