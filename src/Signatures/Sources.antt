-- ===== src/Signatures/Sources.antt =====
-- internal/signatures/updater.go: the statuses that a run of the updater gives its sources.
use mathlib.Core.Path.{subst}
use ar_csent.Prelude.{
  ℕ, ◌≡◌, ◌≢◌, refl, sym, ◌⊎◌, inl, inr, false, Option, none, some, [], ◌∷◌, ◌++◌, is_empty, ℤ,
  Bool-cases, arith, ◌==◌,
}
use ar_csent.Text.{Text, codes}
use ar_csent.Api.{Result, ok, err}
use ar_csent.Signatures.{SourceStatus, HttpSource, Action, ◌>>=◌, resumed, explained, within}
use ar_csent.Signatures.Download.{
  Web, started, finished, download, received, destination, update, update_lem,
}

-- The action's errors are not empty texts.
abbrev Explains : {W A : Type 0} → Action W A → Type 0
Explains {W} m = (w : W) (text : Text) → (m w).0 ≡ err text → text ≢ []

module _ {W : Type 0} where
  resumed-err :
      {A B : Type 0} (f : A → Action W B)
      → ((a : A) → Explains (f a))
      → (r : Result A × W) → ((text : Text) → r.0 ≡ err text → text ≢ [])
      → (text : Text) → (resumed f r).0 ≡ err text
      → text ≢ []
  resumed-err f h (ok a, w) k text e = h a w text e
  resumed-err f h (err t, w) k text e = k text (cc e)

  explained-err :
      {A : Type 0} (context text : Text) (r : Result A × W)
      → is_empty context ≡ false
      → (explained context r).0 ≡ err text
      → text ≢ []
  explained-err [] text r named e = cc
  explained-err (c ∷ context) text (ok a, v) named e = cc
  explained-err (c ∷ context) text (err t, v) named e = λ q. cc (e, q)

  -- A step whose error has a text before it, with what follows.
  step-Explains :
      {A B : Type 0} (context : Text) (m : Action W A) (f : A → Action W B)
      → is_empty context ≡ false
      → ((a : A) → Explains (f a))
      → Explains (within context m >>= f)
  step-Explains context m f named h w =
      resumed-err f h (within context m w) λ text e. explained-err context text (m w) named e

module _ {W : Type 0} (web : Web W) where
  received-Explains :
      (start : ℕ) (tmp dest body : Text) (code : ℕ)
      → Explains (received web start tmp dest (code, body))
  received-Explains start tmp dest body code w text = elim (Bool-cases (code == 200)) [
    | inl e ↦ rw e (
        step-Explains (codes "write download: ") (web.copy_body body tmp) _ refl
          (λ written. step-Explains (codes "close temp file: ") (web.close tmp) _ refl λ closed.
            step-Explains (codes "rename download: ") (web.rename tmp dest) _ refl
              λ renamed v t h. cc h)
          w text)
    | inr e ↦ rw e (λ h q. cc (h, q))
  ]

  download-Explains :
      (url : Text) (start : ℕ) (dest_dir dest : Text)
      → Explains (download web url start dest_dir dest)
  unfolding download
  download-Explains url start dest_dir dest =
      step-Explains (codes "create dest dir: ") (web.make_dir dest_dir) _ refl λ made.
        step-Explains (codes "create temp file: ") (web.create_temp dest_dir) _ refl λ tmp.
          step-Explains (codes "build request: ") (λ v. (web.request url, v)) _ refl
            λ built.
              step-Explains (codes "download: ") (web.send (codes "arcsent-signatures/1.0") url) _
                refl λ response. received-Explains start tmp dest response.1 response.0

  -- A download that went through, and one that did not.
  abbrev pub Succeeded : HttpSource → Text → SourceStatus × Option Text → Type 0
  Succeeded src dest_dir (st, e) =
      (src.url ≢ []) × (e ≡ none) × (st.error ≡ []) × (st.path ≡ destination web src dest_dir)

  abbrev pub Failed : HttpSource → SourceStatus × Option Text → Type 0
  Failed src r = (text : Text) × (text ≢ []) × (r ≡ (started src, some text))

  -- What `Update` gives of a source.
  abbrev pub Told : HttpSource → Text → (SourceStatus × Option Text) × W → Type 0
  Told src dest_dir r =
      (r.0.0.source ≡ src.id)
      × (r.0.0.url ≡ src.url)
      × (Succeeded src dest_dir r.0 ⊎ Failed src r.0)

  finished-Told :
      (src : HttpSource) (dest_dir : Text) (r : Result (ℤ × ℕ × Text) × W)
      → src.url ≢ []
      → ((text : Text) → r.0 ≡ err text → text ≢ [])
      → Told src dest_dir (finished web src (destination web src dest_dir) r)
  finished-Told src dest_dir (ok x, w) given h = (refl, refl, inl (given, refl, refl, refl))
  finished-Told src dest_dir (err text, w) given h = (refl, refl, inr (text, h text refl, refl))

  pub update-Told :
      (src : HttpSource) (dest_dir : Text) (w : W) → Told src dest_dir (update web src dest_dir w)
  update-Told src dest_dir w = elim (Bool-cases (is_empty src.url)) [
    | inl e ↦ subst (Told src dest_dir) (sym (update_lem web src dest_dir w)) (
        simp e
          (refl, refl, inr (codes "no URL configured for source " ++ src.id, (λ q. cc q), refl)))
    | inr e ↦ subst (Told src dest_dir) (sym (update_lem web src dest_dir w)) (
        simp e (
          finished-Told src dest_dir
            (download web src.url (web.now w) dest_dir (destination web src dest_dir) w)
            (λ q. ground (arith, e, q))
            (λ text q.
              download-Explains src.url (web.now w) dest_dir (destination web src dest_dir) w text
                q)))
  ]
