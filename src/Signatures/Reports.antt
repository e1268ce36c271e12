-- ===== src/Signatures/Reports.antt =====
-- internal/signatures/updater.go: a run of the updater gives each configured source a status.
use mathlib.Core.Path.{subst}
use ar_csent.Prelude.{
  ap, ◌≡◌, ◌≢◌, ◌∙◌, refl, sym, ◌⊎◌, inl, inr, Option, none, some, List, [], ◌∷◌, Bool-cases, arith,
}
use ar_csent.Text.{Text, codes, text_eq}
use ar_csent.Text.Equality.{text_eq_iff}
use ar_csent.Dict.{Dict, get, set, spread}
use ar_csent.Dict.Laws.{get-set, NoDuplicates, or_else, get-spread}
use ar_csent.GoPaths.{join}
use ar_csent.Storage.{Badger}
use ar_csent.Storage.Buckets.{Codec}
use ar_csent.Storage.Stored.{Among}
use ar_csent.Signatures.{
  SourceStatus, Status, HttpSource, default_source_urls, with_ids, built_in_sources,
}
use ar_csent.Signatures.Download.{Web, destination, update}
use ar_csent.Signatures.Archives.{Files}
use ar_csent.Signatures.Sources.{Told, update-Told}
use ar_csent.Signatures.Updater.{
  Updater, with_error, source_run, visit_sources, run_sources, run_once,
}

-- The source of an id, with the URL of the configuration before that of the defaults.
abbrev source_of : Text → Option Text → Option HttpSource
source_of id none = none
source_of id (some url) = some (record { id = id; url = url })

abbrev pub configured : Text → Dict Text → Option HttpSource
configured id overrides = source_of id (or_else (get id overrides) (get id default_source_urls))

get-with_ids : (id : Text) (urls : Dict Text) → get id (with_ids urls) ≡ source_of id (get id urls)
unfolding get
get-with_ids id [] = refl
get-with_ids id ((j, url) ∷ urls) = ground (arith, text_eq_iff j id, get-with_ids id urls)

get-built_in_sources :
    (id : Text) (overrides : Dict Text)
    → NoDuplicates overrides
    → get id (built_in_sources overrides) ≡ configured id overrides
unfolding built_in_sources
get-built_in_sources id overrides h =
    get-with_ids id (spread default_source_urls overrides)
    ∙ rw (get-spread id default_source_urls overrides h) refl

module _ {W : Type 0} (web : Web W) (files : Files W) (cache_dir : Text) where
  -- The status of a source that is not known, of one that was downloaded, and of one that was not.
  abbrev pub Describes : Text → Option HttpSource → SourceStatus → Type 0
  Describes id none st =
      (st.source ≡ id) × (st.path ≡ []) × (st.error ≡ codes "source not registered")
  Describes id (some src) st =
      (st.source ≡ id)
      × (st.url ≡ src.url)
      × (((src.url ≢ []) × (st.error ≡ []) × (st.path ≡ destination web src (join cache_dir id)))
          ⊎ ((st.error ≢ []) × (st.path ≡ [])))

  with_error-Describes :
      (id : Text) (src : HttpSource) (st : SourceStatus) (e : Option Text) (w : W)
      → src.id ≡ id
      → Told web src (join cache_dir id) ((st, e), w)
      → Describes id (some src) (with_error (st, e))
  with_error-Describes id src st none w named (source, url, inl (given, f, error, path)) =
      (source ∙ named, url, inl (given, error, path))
  with_error-Describes id src st none w named (source, url, inr (text, filled, f)) = cc f
  with_error-Describes id src st (some t) w named (source, url, inl (given, f, error, path)) = cc f
  with_error-Describes id src st (some t) w named (source, url, inr (text, filled, f)) =
      (source ∙ named, url, inr ((λ q. filled (cc (f, q))), cc f))

  source_run-Describes :
      (id : Text) (o : Option HttpSource) (w : W)
      → ((src : HttpSource) → o ≡ some src → src.id ≡ id)
      → Describes id o (source_run web files cache_dir id o w).0
  source_run-Describes id none w named = (refl, refl, refl)
  source_run-Describes id (some src) w named =
      let r = update web src (join cache_dir id) w in
      with_error-Describes id src r.0.0 r.0.1 r.1 (named src refl)
        (update-Told web src (join cache_dir id) w)

  -- The status of an id after the visits: as it was where the id is not visited.
  abbrev Visited :
      Option HttpSource → List Text → Dict SourceStatus → Dict SourceStatus → Text → Type 0
  Visited o ids before after id =
      (¬ (Among id ids) × (get id after ≡ get id before))
      ⊎ (Among id ids × ((st : SourceStatus) × (get id after ≡ some st) × Describes id o st))

  Visited-cons :
      (o : Option HttpSource) (i id : Text) (ids : List Text) (st : SourceStatus)
      (before after : Dict SourceStatus)
      → (i ≡ id → Describes id o st)
      → Visited o ids (set i st before) after id
      → Visited o (i ∷ ids) before after id
  Visited-cons o i id ids st before after h (inr (m, r)) = inr (inr m, r)
  Visited-cons o i id ids st before after h (inl (absent, e)) = elim (Bool-cases (text_eq i id)) [
    | inl q ↦
        let same : i ≡ id = (text_eq_iff i id).0 q in
        inr (inl same, (st, e ∙ (get-set i id st before ∙ rw q refl), h same))
    | inr q ↦ inl (
      (λ m. elim m [
        | inl same ↦ ground (arith, text_eq_iff i id, same, q)
        | inr other ↦ absent other
      ]),
      e ∙ (get-set i id st before ∙ rw q refl),
    )
  ]

  visit_sources-Visited :
      (sources : Dict HttpSource) (ids : List Text) (statuses : Dict SourceStatus) (w : W)
      (id : Text)
      → ((src : HttpSource) → get id sources ≡ some src → src.id ≡ id)
      → Visited
          (get id sources)
          ids
          statuses
          (visit_sources web files cache_dir sources ids statuses w).0
          id
  unfolding visit_sources
  visit_sources-Visited sources [] statuses w id named = inl ((λ m. m), refl)
  visit_sources-Visited sources (i ∷ ids) statuses w id named =
      let ran = source_run web files cache_dir i (get i sources) w in
      Visited-cons (get id sources) i id ids ran.0 statuses
        (visit_sources web files cache_dir sources ids (set i ran.0 statuses) ran.1).0
        (λ e. rw e (source_run-Describes id (get id sources) w named))
        (visit_sources-Visited sources ids (set i ran.0 statuses) ran.1 id named)

source_of_named :
    (id : Text) (url : Option Text) (src : HttpSource) → source_of id url ≡ some src → src.id ≡ id
source_of_named id none src h = cc
source_of_named id (some url) src h = cc h

configured_named :
    (id : Text) (overrides : Dict Text) (src : HttpSource)
    → configured id overrides ≡ some src
    → src.id ≡ id
configured_named id overrides src h =
    source_of_named id (or_else (get id overrides) (get id default_source_urls)) src h

module _ {W Db : Type 0} (web : Web W) (files : Files W) (badger : Badger Db)
    (codec : Codec Status) where
  -- What the status of a run says of an id.
  abbrev pub Reported : Updater → Text → Option SourceStatus → Type 0
  Reported u id none = ¬ (Among id u.cfg.sources)
  Reported u id (some st) =
      Among id u.cfg.sources
      × Describes web files u.cfg.cache_dir id (configured id u.cfg.source_urls) st

  Visited-Reported :
      (u : Updater) (id : Text) (o : Option SourceStatus)
      → (¬ (Among id u.cfg.sources) × (o ≡ none))
        ⊎ (Among id u.cfg.sources
            × ((st : SourceStatus) × (o ≡ some st)
                × Describes web files u.cfg.cache_dir id (configured id u.cfg.source_urls) st))
      → Reported u id o
  Visited-Reported u id none (inl (absent, e)) = absent
  Visited-Reported u id none (inr (m, r)) = cc r.1
  Visited-Reported u id (some st) (inl (absent, e)) = cc e
  Visited-Reported u id (some st) (inr (m, r)) = (
    m,
    subst (Describes web files u.cfg.cache_dir id (configured id u.cfg.source_urls)) (cc r.1) r.2,
  )

  -- Without an import path, the sources are visited.
  run_sources_online :
      (u : Updater) (w : W)
      → u.cfg.airgap_import_path ≡ []
      → run_sources web files u.cfg u.sources w
        ≡ visit_sources web files u.cfg.cache_dir u.sources u.cfg.sources [] w
  unfolding run_sources
  run_sources_online u w online = simp online refl

  -- Where the updater has no import path, its sources are those that its configuration's URLs give, and
  -- no id has two URLs there, the status of a run has exactly the ids of the configured sources. An id
  -- without a URL in the configuration and the defaults has the error that it is not registered and no
  -- path; any other has the URL of the configuration, or else of the defaults, and either a path of
  -- that URL's file in the source's directory, no error and a URL that is not empty, or an error and no
  -- path.
  pub run_once-Reported :
      (u : Updater) (w : W) (store : Option Db) (id : Text)
      → u.sources ≡ built_in_sources u.cfg.source_urls
      → NoDuplicates u.cfg.source_urls
      → u.cfg.airgap_import_path ≡ []
      → Reported u id (get id (run_once web files badger codec u w store).status.sources)
  unfolding run_once get
  run_once-Reported u w store id built unique online =
      let same : get id u.sources ≡ configured id u.cfg.source_urls =
        ap (get id) built ∙ get-built_in_sources id u.cfg.source_urls unique in
      let visited =
        visit_sources-Visited web files u.cfg.cache_dir u.sources u.cfg.sources [] w id
          (λ src e. configured_named id u.cfg.source_urls src (sym same ∙ e)) in
      let statuses = (visit_sources web files u.cfg.cache_dir u.sources u.cfg.sources [] w).0 in
      subst (λ (r : Dict SourceStatus × W). Reported u id (get id r.0))
        (sym (run_sources_online u w online))
        (Visited-Reported u id (get id statuses) (
          subst (λ o. Visited web files u.cfg.cache_dir o u.cfg.sources [] statuses id) same
            visited))
