-- ===== src/Findings/Severity.antt =====
-- web/src/pages/Findings.tsx: the colour of a severity.
use ar_csent.Prelude.{ℕ, ◌-◌, ◌≡◌, ◌↔◌, ◌⊎◌, inl, inr, [], ◌∷◌, arith, ◌≤◌}
use ar_csent.Text.{Text, codes, to_lower, to_lower_case}
use ar_csent.Text.Equality.{text_eq_iff}
use ar_csent.Components.{BadgeVariant}
use ar_csent.Findings.{severity_variant, variant_of}

-- A character is the lower-case letter `l`, or the capital of it.
abbrev SameLetter : ℕ → ℕ → Type 0
SameLetter c l = (c ≡ l) ⊎ (c ≡ l - 32)

-- The text spells the lower-case word in letters of either case.
abbrev pub Spells : Text → Text → Type 0
Spells [] [] = Unit
Spells [] (l ∷ word) = ⊥
Spells (c ∷ s) [] = ⊥
Spells (c ∷ s) (l ∷ word) = SameLetter c l × Spells s word

-- A word of ASCII letters in lower case other than k.
abbrev IsWord : Text → Type 0
IsWord [] = Unit
IsWord (l ∷ word) = (b'a' ≤ l) × (l ≤ b'z') × (l ≡ b'k' → ⊥) × IsWord word

to_lower_iff : (c l : ℕ) → b'a' ≤ l → l ≤ b'z' → (l ≡ b'k' → ⊥) → (to_lower c ≡ l) ↔ SameLetter c l
unfolding to_lower
to_lower_iff c l lo hi k = (λ e. ground arith, λ s. ground arith)

Spells-to_lower_case : (s word : Text) → IsWord word → (to_lower_case s ≡ word) ↔ Spells s word
unfolding to_lower_case
Spells-to_lower_case [] [] h = ground arith
Spells-to_lower_case [] (l ∷ word) h = ground arith
Spells-to_lower_case (c ∷ s) [] h = ground arith
Spells-to_lower_case (c ∷ s) (l ∷ word) h =
    let first = to_lower_iff c l h.0 h.1 h.2 in
    let rest = Spells-to_lower_case s word h.3 in
    (λ e. (first.0 (cc), rest.0 (cc)), λ p. cc (first.1 p.0, rest.1 p.1))

variant_of_iff :
    (t : Text)
    → ((variant_of t ≡ BadgeVariant.danger) ↔ ((t ≡ codes "critical") ⊎ (t ≡ codes "high")))
      × ((variant_of t ≡ BadgeVariant.warning) ↔ (t ≡ codes "medium"))
      × ((variant_of t ≡ BadgeVariant.outline) ↔ (t ≡ codes "low"))
variant_of_iff t =
    let critical = text_eq_iff t (codes "critical") in
    let high = text_eq_iff t (codes "high") in
    let medium = text_eq_iff t (codes "medium") in
    let low = text_eq_iff t (codes "low") in
    (
      (λ e. ground arith, λ e. ground arith),
      (λ e. ground arith, λ e. ground arith),
      (λ e. ground arith, λ e. ground arith),
    )

-- The colour of a severity, by what it spells in letters of either case: red exactly for
-- "critical" and "high", yellow exactly for "medium", and outlined exactly for "low".
pub severity_variant_iff :
    (s : Text)
    → ((severity_variant s ≡ BadgeVariant.danger)
        ↔ (Spells s (codes "critical") ⊎ Spells s (codes "high")))
      × ((severity_variant s ≡ BadgeVariant.warning) ↔ Spells s (codes "medium"))
      × ((severity_variant s ≡ BadgeVariant.outline) ↔ Spells s (codes "low"))
unfolding severity_variant
severity_variant_iff s =
    let (red, yellow, outlined) = variant_of_iff (to_lower_case s) in
    let critical = Spells-to_lower_case s (codes "critical") (omega arith) in
    let high = Spells-to_lower_case s (codes "high") (omega arith) in
    let medium = Spells-to_lower_case s (codes "medium") (omega arith) in
    let low = Spells-to_lower_case s (codes "low") (omega arith) in
    (
      (
        λ e. elim (red.0 e) [ inl h ↦ inl (critical.0 h) | inr h ↦ inr (high.0 h) ],
        λ e. red.1 (elim e [ inl h ↦ inl (critical.1 h) | inr h ↦ inr (high.1 h) ]),
      ),
      (λ e. medium.0 (yellow.0 e), λ h. yellow.1 (medium.1 h)),
      (λ e. low.0 (outlined.0 e), λ h. outlined.1 (low.1 h)),
    )
