-- ===== src/Dashboard/View/Badges.antt =====
-- web/src/pages/Dashboard.tsx: the badges in the list of sources, against the counts in the card.
use ar_csent.Prelude.{
  ℕ, ◌+◌, ◌≡◌, refl, Bool, true, false, List, [], ◌∷◌, map, String, length, filter, arith,
}
use ar_csent.Text.{Text, codes, text_eq}
use ar_csent.Api.Types.{SignatureSourceStatus}
use ar_csent.Jsx.{badges, badges_all, nodes}
use ar_csent.Jsx.Events.{badges_all-map}
use ar_csent.Components.{ClassValue, badge}
use ar_csent.Dashboard.Sources.{has_error, failed_sources, ok_sources, total_sources}
use ar_csent.Dashboard.Format.{Platform}
use ar_csent.Dashboard.View.{error_icon, error_badge, source_row, source_rows}

-- The label of a badge.
abbrev label : Bool → Text
label true = codes "Error"
label false = codes "Synced"

-- How often a label stands among the badges.
abbrev pub count_of : Text → List Text → ℕ
count_of t badges = length (filter (λ b. text_eq b t) badges)

module _ (clsx : List ClassValue → String) (p : Platform) where
  badges-error_badge :
      (failed : Bool) → badges_all (nodes (error_badge clsx p failed)) ≡ label failed ∷ []
  unfolding badge badges
  badges-error_badge true = refl
  badges-error_badge false = refl

  badges-error_icon : (failed : Bool) → badges (error_icon clsx p failed) ≡ []
  unfolding badges
  badges-error_icon true = refl
  badges-error_icon false = refl

  badges-source_row :
      (src : SignatureSourceStatus) → badges (source_row clsx p src) ≡ label (has_error src) ∷ []
  unfolding source_row badges
  badges-source_row src = rw (badges-error_icon (has_error src), badges-error_badge (has_error src))

  -- One badge for each source, in the list's order.
  badges-source_rows :
      (sources : List SignatureSourceStatus)
      → badges (source_rows clsx p sources) ≡ map (λ src. label (has_error src)) sources
  unfolding source_rows badges
  badges-source_rows [] = refl
  badges-source_rows (src ∷ sources) =
      badges_all-map (source_row clsx p) (λ s. label (has_error s)) badges-source_row
        (src ∷ sources)

  count-errors :
      (sources : List SignatureSourceStatus)
      → count_of (label true) (map (λ src. label (has_error src)) sources) ≡ failed_sources sources
  unfolding failed_sources text_eq
  count-errors [] = refl
  count-errors (src ∷ sources) = ground (arith, count-errors sources)

  count-synced :
      (sources : List SignatureSourceStatus)
      → count_of (label false) (map (λ src. label (has_error src)) sources) + failed_sources sources
        ≡ length sources
  unfolding failed_sources text_eq
  count-synced [] = omega arith
  count-synced (src ∷ sources) = ground (arith, count-synced sources)

  -- The card's counts are those of the badges in the list: as many "Error" badges as failed
  -- sources and as many "Synced" badges as the card calls ok; together they are all sources.
  pub count-source_rows :
      (sources : List SignatureSourceStatus)
      → (count_of (codes "Error") (badges (source_rows clsx p sources)) ≡ failed_sources sources)
        × (count_of (codes "Synced") (badges (source_rows clsx p sources)) ≡ ok_sources sources)
        × (failed_sources sources + ok_sources sources ≡ total_sources sources)
  unfolding ok_sources
  count-source_rows sources = rw (badges-source_rows sources) (
    count-errors sources,
    omega (arith, count-synced sources),
    omega (arith, count-synced sources),
  )
