-- ===== src/Signatures/Archives.antt =====
-- internal/signatures/updater.go: `importAirgap`, with the copying of files and directories and the
-- extraction of archives. A file that is open is its content.
use ar_csent.Prelude.{Bool, ◌||◌, List, [], ◌∷◌, is_empty, if◌then◌else◌}
use ar_csent.Text.{Text, codes, text_eq}
use ar_csent.Api.{Result, ok, err}
use ar_csent.GoPaths.{join, dir, base}
use ar_csent.Signatures.{Action, ◌>>=◌, return, fail, within}
use ar_csent.Signatures.Paths.{safe_extract_path}

pub data Kind : Type 0 where
  directory : Kind
  regular : Kind
  other : Kind

pub record TarEntry : Type 0 where
  pub name : Text
  pub kind : Kind
  pub body : Text

pub record ZipEntry : Type 0 where
  pub name : Text
  pub is_dir : Bool
  pub body : Text

-- The calls of os, io, archive and compress: `make_dir` is `MkdirAll`, `copy` writes a content to a file
-- that `create` made, `tar` has what the calls of `Next` give up to the end of the archive, and `walk`
-- the paths that `WalkDir` visits, whether each is a directory, or the error of one.
pub record Files (W : Type 0) : Type 0 where
  pub is_dir : Text → Action W Bool
  pub make_dir : Text → Action W (Unit {0})
  pub open_file : Text → Action W Text
  pub create : Text → Action W (Unit {0})
  pub copy : Text → Text → Action W (Unit {0})
  pub sync : Text → Action W (Unit {0})
  pub gunzip : Text → Action W Text
  pub tar : Text → List (Result TarEntry)
  pub open_zip : Text → Action W (List ZipEntry)
  pub open_entry : ZipEntry → Action W Text
  pub walk : Text → W → List (Result (Text × Bool))
  pub rel : Text → Text → Result Text

-- `strings.HasSuffix`
unfoldable pub has_suffix : Text → Text → Bool
has_suffix [] suffix = is_empty suffix
has_suffix (c ∷ s) suffix = text_eq (c ∷ s) suffix || has_suffix s suffix

module _ {W : Type 0} where
  abbrev pub lifted : {A : Type 0} → Result A → Action W A
  lifted r w = (r, w)

  -- The actions one after the other, up to the first that fails.
  unfoldable pub each : {A : Type 0} → (A → Action W (Unit {0})) → List A → Action W (Unit {0})
  each f [] = return tt
  each f (a ∷ rest) = f a >>= λ done. each f rest

module _ {W : Type 0} (files : Files W) where
  unfoldable pub copy_file : Text → Text → Action W (Unit {0})
  unfolding dir
  copy_file src dest = do
    _ ← files.make_dir (dir dest)
    content ← files.open_file src
    _ ← files.create dest
    _ ← files.copy content dest
    files.sync dest

  abbrev copy_visited : Text → Text → Result (Text × Bool) → Action W (Unit {0})
  copy_visited src dest (err text) = fail text
  copy_visited src dest (ok (pathname, is_dir)) = do
    rel ← lifted (files.rel src pathname)
    (if is_dir then files.make_dir (join dest rel) else copy_file pathname (join dest rel))

  unfoldable pub copy_dir : Text → Text → Action W (Unit {0})
  unfolding copy_file join each
  copy_dir src dest w = each (copy_visited src dest) (files.walk src w) w

  abbrev pub extracted_file : Text → ZipEntry → Action W (Unit {0})
  extracted_file target f = do
    _ ← files.make_dir (dir target)
    content ← files.open_entry f
    _ ← files.create target
    files.copy content target

  abbrev pub extracted : Text → ZipEntry → Action W (Unit {0})
  extracted target f = if f.is_dir then files.make_dir target else extracted_file target f

  abbrev pub extract_zip_entry : Text → ZipEntry → Action W (Unit {0})
  extract_zip_entry dest f = lifted (safe_extract_path dest f.name) >>= λ target. extracted target f

  unfoldable pub extract_zip : Text → Text → Action W (Unit {0})
  unfolding safe_extract_path dir each
  extract_zip src dest = do archive ← files.open_zip src; each (extract_zip_entry dest) archive

  abbrev pub stored_at : Text → Kind → Text → Action W (Unit {0})
  stored_at target directory body = files.make_dir target
  stored_at target regular body = do
    _ ← files.make_dir (dir target)
    _ ← files.create target
    files.copy body target
  stored_at target other body = return tt

  abbrev pub extract_tar_entry : Text → Result TarEntry → Action W (Unit {0})
  extract_tar_entry dest (err text) = fail text
  extract_tar_entry dest (ok header) = lifted (safe_extract_path dest header.name) >>= λ target.
      stored_at target header.kind header.body

  unfoldable pub extract_tar_reader : Text → Text → Action W (Unit {0})
  unfolding safe_extract_path dir each
  extract_tar_reader content dest = each (extract_tar_entry dest) (files.tar content)

  unfoldable pub extract_tar_gz : Text → Text → Action W (Unit {0})
  unfolding extract_tar_reader
  extract_tar_gz src dest = do
    file ← files.open_file src
    content ← files.gunzip file
    extract_tar_reader content dest

  unfoldable pub extract_tar : Text → Text → Action W (Unit {0})
  unfolding extract_tar_reader
  extract_tar src dest = do file ← files.open_file src; extract_tar_reader file dest

  -- The copy of a directory, the extraction of an archive, or the copy of a file, by the suffix.
  abbrev imported : Text → Text → Bool → Action W (Unit {0})
  imported src dest is_dir =
      if is_dir
      then copy_dir src dest
      else if has_suffix src (codes ".zip")
      then extract_zip src dest
      else if has_suffix src (codes ".tar.gz") || has_suffix src (codes ".tgz")
      then extract_tar_gz src dest
      else if has_suffix src (codes ".tar")
      then extract_tar src dest
      else copy_file src (join dest (base src))

  unfoldable pub import_airgap : Text → Text → Action W (Unit {0})
  unfolding copy_dir extract_zip extract_tar_gz extract_tar copy_file join base has_suffix
  import_airgap src dest = do
    is_dir ← within (codes "stat airgap path: ") (files.is_dir src)
    _ ← within (codes "create cache dir: ") (files.make_dir dest)
    imported src dest is_dir
