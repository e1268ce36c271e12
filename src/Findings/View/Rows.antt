-- ===== src/Findings/View/Rows.antt =====
-- web/src/pages/Findings.tsx: when the page renders, and the badges of its rows.
use ar_csent.Prelude.{
  ℕ, suc, ◌≡◌, ◌≢◌, ◌↔◌, refl, ◌∙◌, Bool, true, false, Option, none, some, List, [], ◌∷◌, ◌++◌,
  String, is_empty, All, flat_map, append-nil,
}
use mathlib.Core.Path.{subst}
use ar_csent.Number.Print.{show_nat}
use ar_csent.Text.{Text}
use ar_csent.Api.Types.{Finding}
use ar_csent.Jsx.{prop, nodes, badges, badges_all}
use ar_csent.Jsx.Events.{badges_all-append}
use ar_csent.Components.{
  ClassValue, badge, card, card_header, card_title, card_content, table, table_header, table_body,
  table_row, table_head, table_cell,
}
use ar_csent.Findings.View.{
  Dates, time_text, Page, finding_row, finding_rows, no_findings, page_of, view, row_cells, ◌>>=◌,
}

-- The time of a finding is missing or is a date.
abbrev pub HasTime : Dates → Finding → Type 0
HasTime d finding = (finding.occurred_at ≢ []) → d.parse_time finding.occurred_at ≢ none

abbrev IsRendered {ℓ} : {A : Type ℓ} → Option A → Type ℓ
IsRendered o = o ≢ none

-- A bind has a result exactly when both parts have.
bind-ne-none {ℓ κ} :
    {A : Type ℓ} {B : Type κ} (m : Option A) (f : A → B)
    → IsRendered (m >>= λ a. some (f a)) ↔ IsRendered m
bind-ne-none none f = (λ h. absurd (h refl), λ h. absurd (h refl))
bind-ne-none (some a) f = (λ h. cc, λ h. cc)

both-ne-none {ℓ κ μ} :
    {A : Type ℓ} {B : Type κ} {C : Type μ} (m : Option A) (n : Option B) (f : A → B → C)
    → IsRendered (m >>= λ a. n >>= λ b. some (f a b)) ↔ (IsRendered m × IsRendered n)
both-ne-none none n f = (λ h. absurd (h refl), λ h. absurd (h.0 refl))
both-ne-none (some a) none f = (λ h. absurd (h refl), λ h. absurd (h.1 refl))
both-ne-none (some a) (some b) f = (λ h. (cc, cc), λ h. cc)

some_inj {ℓ} : {A : Type ℓ} {a b : A} → some a ≡ some b → a ≡ b
some_inj h = cc

bind-eq-some {ℓ κ} :
    {A : Type ℓ} {B : Type κ} (m : Option A) (f : A → Option B) {b : B}
    → (m >>= f) ≡ some b
    → (a : A) × (m ≡ some a) × (f a ≡ some b)
bind-eq-some none f h = cc
bind-eq-some (some a) f h = (a, refl, h)

module _ (clsx : List ClassValue → String) (d : Dates) where
  time_text-IsRendered : (t : Text) → IsRendered (time_text d t) ↔ (t ≢ [] → d.parse_time t ≢ none)
  unfolding time_text
  time_text-IsRendered [] = (λ h ne. absurd (ne refl), λ h. cc)
  time_text-IsRendered (c ∷ t) =
      let part = bind-ne-none (d.parse_time (c ∷ t)) d.format in
      (λ h ne. part.0 h, λ h. part.1 (h (cc)))

  finding_row-IsRendered :
      (i : ℕ) (finding : Finding) → IsRendered (finding_row clsx d i finding) ↔ HasTime d finding
  unfolding finding_row
  finding_row-IsRendered i finding =
      let part =
        bind-ne-none (time_text d finding.occurred_at)
          (λ t. table_row clsx none (prop "key" (show_nat i) ∷ []) (row_cells clsx d finding t)) in
      let time = time_text-IsRendered finding.occurred_at in
      (λ h. time.0 (part.0 h), λ h. part.1 (time.1 h))

  finding_rows-IsRendered :
      (i : ℕ) (findings : List Finding)
      → IsRendered (finding_rows clsx d i findings) ↔ All (HasTime d) findings
  unfolding finding_rows
  finding_rows-IsRendered i [] = (λ h. tt, λ h. cc)
  finding_rows-IsRendered i (finding ∷ findings) =
      let both =
        both-ne-none (finding_row clsx d i finding) (finding_rows clsx d (suc i) findings)
          (λ row rows. row ∷ rows) in
      let first = finding_row-IsRendered i finding in
      let rest = finding_rows-IsRendered (suc i) findings in
      (λ h. (first.0 (both.0 h).0, rest.0 (both.0 h).1), λ h. both.1 (first.1 h.0, rest.1 h.1))

  -- The page renders exactly when every finding that names a time names a valid date; a single
  -- other finding takes the whole page down.
  pub view-ne-none_iff :
      (findings : List Finding) → (view clsx d findings ≢ none) ↔ All (HasTime d) findings
  unfolding view
  view-ne-none_iff findings =
      let part =
        bind-ne-none (finding_rows clsx d 0 findings)
          (λ rows. page_of clsx d (rows ++ no_findings clsx d (is_empty findings))) in
      let rows = finding_rows-IsRendered 0 findings in
      (λ h. rows.0 (part.0 h), λ h. part.1 (rows.1 h))

  badges-finding_row :
      (i : ℕ) (finding : Finding) (row : Page clsx d)
      → finding_row clsx d i finding ≡ some row
      → badges row ≡ finding.severity ∷ finding.category ∷ []
  unfolding finding_row table_row table_cell badge badges
  badges-finding_row i finding row h =
      let (time, found, same) = bind-eq-some (time_text d finding.occurred_at) _ h in
      subst (λ r. badges r ≡ finding.severity ∷ finding.category ∷ []) (some_inj same) refl

  badges-finding_rows :
      (i : ℕ) (findings : List Finding) (rows : List (Page clsx d))
      → finding_rows clsx d i findings ≡ some rows
      → badges_all (nodes rows) ≡ flat_map (λ f. f.severity ∷ f.category ∷ []) findings
  unfolding finding_rows badges
  badges-finding_rows i [] rows h = subst (λ r. badges_all (nodes r) ≡ []) (some_inj h) refl
  badges-finding_rows i (finding ∷ findings) rows h =
      let (row, first, h') = bind-eq-some (finding_row clsx d i finding) _ h in
      let (rest, later, same) = bind-eq-some (finding_rows clsx d (suc i) findings) _ h' in
      subst
        (λ r.
          badges_all (nodes r) ≡ flat_map (λ f. f.severity ∷ f.category ∷ []) (finding ∷ findings))
        (some_inj same)
        (rw
          (badges-finding_row i finding row first, badges-finding_rows (suc i) findings rest later))

  badges-no_findings : (empty : Bool) → badges_all (nodes (no_findings clsx d empty)) ≡ []
  unfolding table_row table_cell badges
  badges-no_findings true = refl
  badges-no_findings false = refl

  badges-page_of :
      (body : List (Page clsx d)) → badges (page_of clsx d body) ≡ badges_all (nodes body)
  unfolding card card_header card_title card_content table table_header table_body table_row
      table_head badges
  badges-page_of body = simp append-nil

  -- The badges of the rendered page are the severity and the category of each finding, in order.
  pub badges-view :
      (findings : List Finding) (page : Page clsx d)
      → view clsx d findings ≡ some page
      → badges page ≡ flat_map (λ f. f.severity ∷ f.category ∷ []) findings
  unfolding view
  badges-view findings page h =
      let (rows, found, same) = bind-eq-some (finding_rows clsx d 0 findings) _ h in
      subst (λ r. badges r ≡ flat_map (λ f. f.severity ∷ f.category ∷ []) findings) (some_inj same)
        (badges-page_of _
          ∙ badges_all-append rows (no_findings clsx d (is_empty findings))
          ∙ rw (badges-no_findings (is_empty findings), badges-finding_rows 0 findings rows found)
              (append-nil _))
