-- ===== src/Signatures/Extraction.antt =====
-- internal/signatures/updater.go: what an extraction leaves as it is.
use ar_csent.Prelude.{◌≡◌, inl, inr, Bool, true, false, List, [], ◌∷◌, if◌then◌else◌}
use ar_csent.Text.{Text}
use ar_csent.Api.{Result, ok, err}
use ar_csent.GoPaths.{is_rooted, dir}
use ar_csent.Storage.Stored.{Result-cases}
use ar_csent.Signatures.{Action, ◌>>=◌, resumed}
use ar_csent.Signatures.Paths.{safe_extract_path, Inside, safe_extract_path-Inside}
use ar_csent.Signatures.Archives.{
  Kind, directory, regular, other, TarEntry, ZipEntry, Files, lifted, each, extracted,
  extracted_file, stored_at, extract_zip_entry, extract_zip, extract_tar_entry, extract_tar_reader,
  extract_tar_gz, extract_tar,
}

-- The action leaves a world of `P` in `P`, whether it fails or not.
abbrev pub Keeps : {W A : Type 0} → (W → Type 0) → Action W A → Type 0
Keeps P m = (w : _) → P w → P (m w).1

-- `P` survives reading, and what is written at a path inside the destination or makes its parent.
pub record Allows {W : Type 0} (files : Files W) (P : W → Type 0) (dest : Text) : Type 0 where
  pub open_file : (src : Text) → Keeps P (files.open_file src)
  pub gunzip : (file : Text) → Keeps P (files.gunzip file)
  pub open_zip : (src : Text) → Keeps P (files.open_zip src)
  pub open_entry : (f : ZipEntry) → Keeps P (files.open_entry f)
  pub make_dir : (path : Text) → Inside dest path → Keeps P (files.make_dir path)
  pub make_parent : (path : Text) → Inside dest path → Keeps P (files.make_dir (dir path))
  pub create : (path : Text) → Inside dest path → Keeps P (files.create path)
  pub copy : (content path : Text) → Inside dest path → Keeps P (files.copy content path)

module _ {W : Type 0} (P : W → Type 0) where
  resumed-Keeps :
      {A B : Type 0} (f : A → Action W B)
      → ((a : A) → Keeps P (f a))
      → (r : Result A × W) → P r.1
      → P (resumed f r).1
  resumed-Keeps f h (ok a, w) p = h a w p
  resumed-Keeps f h (err text, w) p = p

  bind-Keeps :
      {A B : Type 0} (m : Action W A) (f : A → Action W B)
      → Keeps P m
      → ((a : A) → Keeps P (f a))
      → Keeps P (m >>= f)
  bind-Keeps m f hm hf w p = resumed-Keeps f hf (m w) (hm w p)

  if-Keeps :
      {A : Type 0} (b : Bool) (m n : Action W A)
      → Keeps P m
      → Keeps P n
      → Keeps P (if b then m else n)
  if-Keeps true m n hm hn = hm
  if-Keeps false m n hm hn = hn

  each-Keeps :
      {A : Type 0} (f : A → Action W (Unit {0}))
      → ((a : A) → Keeps P (f a))
      → (list : List A) → Keeps P (each f list)
  unfolding each
  each-Keeps f h [] w p = p
  each-Keeps f h (a ∷ rest) w p =
      bind-Keeps (f a) (λ done. each f rest) (h a) (λ done. each-Keeps f h rest) w p

module _ {W : Type 0} (files : Files W) (P : W → Type 0) (dest : Text)
    (rooted : is_rooted dest ≡ true) (allows : Allows files P dest) where
  lifted-Keeps :
      (name : Text) (f : Text → Action W (Unit {0}))
      → ((target : Text) → Inside dest target → Keeps P (f target))
      → Keeps P (lifted (safe_extract_path dest name) >>= f)
  lifted-Keeps name f h w p = elim (Result-cases (safe_extract_path dest name)) [
    | inl (target, e) ↦ rw e (h target (safe_extract_path-Inside dest name target rooted e) w p)
    | inr (text, e) ↦ rw e p
  ]

  extracted-Keeps :
      (f : ZipEntry) (target : Text) → Inside dest target → Keeps P (extracted files target f)
  extracted-Keeps f target inside =
      if-Keeps P f.is_dir (files.make_dir target) (extracted_file files target f)
        (allows.make_dir target inside)
        (bind-Keeps P (files.make_dir (dir target))
          (λ made. files.open_entry f >>= λ content.
            files.create target >>= λ opened. files.copy content target)
          (allows.make_parent target inside)
          λ made.
            bind-Keeps P (files.open_entry f)
              (λ content. files.create target >>= λ opened. files.copy content target)
              (allows.open_entry f)
              λ content.
                bind-Keeps P (files.create target) (λ opened. files.copy content target)
                  (allows.create target inside) (λ opened. allows.copy content target inside))

  stored_at-Keeps :
      (kind : Kind) (body target : Text)
      → Inside dest target
      → Keeps P (stored_at files target kind body)
  stored_at-Keeps directory body target inside w p = allows.make_dir target inside w p
  stored_at-Keeps regular body target inside w p =
      bind-Keeps P (files.make_dir (dir target))
        (λ made. files.create target >>= λ opened. files.copy body target)
        (allows.make_parent target inside)
        (λ made.
          bind-Keeps P (files.create target) (λ opened. files.copy body target)
            (allows.create target inside) (λ opened. allows.copy body target inside))
        w p
  stored_at-Keeps other body target inside w p = p

  extract_tar_entry-Keeps : (item : Result TarEntry) → Keeps P (extract_tar_entry files dest item)
  extract_tar_entry-Keeps (err text) w p = p
  extract_tar_entry-Keeps (ok header) w p =
      lifted-Keeps header.name (λ target. stored_at files target header.kind header.body)
        (stored_at-Keeps header.kind header.body) w p

  extract_tar_reader-Keeps : (content : Text) → Keeps P (extract_tar_reader files content dest)
  unfolding extract_tar_reader
  extract_tar_reader-Keeps content =
      each-Keeps P (extract_tar_entry files dest) extract_tar_entry-Keeps (files.tar content)

  -- The extraction of an archive to an absolute destination, in each of its three forms and whether it
  -- succeeds or not, keeps every property of the world that is kept by reading archives and by making
  -- directories and writing files inside the destination, and by making the parents of such paths.
  pub extract-Keeps :
      (src : Text)
      → Keeps P (extract_zip files src dest)
        × Keeps P (extract_tar_gz files src dest)
        × Keeps P (extract_tar files src dest)
  unfolding extract_zip extract_tar_gz extract_tar
  extract-Keeps src = (
    bind-Keeps P (files.open_zip src) (each (extract_zip_entry files dest)) (allows.open_zip src) (
        each-Keeps P (extract_zip_entry files dest)
          λ f. lifted-Keeps f.name (λ target. extracted files target f) (extracted-Keeps f)),
    bind-Keeps P (files.open_file src)
        (λ file. files.gunzip file >>= λ content. extract_tar_reader files content dest)
        (allows.open_file src)
        (λ file.
          bind-Keeps P (files.gunzip file) (λ content. extract_tar_reader files content dest)
            (allows.gunzip file) extract_tar_reader-Keeps),
    bind-Keeps P (files.open_file src) (λ file. extract_tar_reader files file dest)
        (allows.open_file src) extract_tar_reader-Keeps,
  )
