-- ===== src/Signatures/Download.antt =====
-- internal/signatures/updater.go: `HTTPSource.Update` and `filenameForURL`.
use ar_csent.Prelude.{
  ℕ, ◌≡◌, refl, Option, none, some, List, [], ◌∷◌, ◌++◌, ◌==◌, is_empty, if◌then◌else◌, ℤ, pos,
}
use ar_csent.Text.{Text, codes, text_eq, split_char}
use ar_csent.Api.{Result, ok, err}
use ar_csent.GoStrings.{trim_space}
use ar_csent.GoPaths.{join, base, slash, dot}
use ar_csent.Number.Print.{show_nat}
use ar_csent.Signatures.{SourceStatus, HttpSource, Action, ◌>>=◌, fail, within}

-- The calls of `Update`. `create_temp` gives the name of the file, and `send` the code and the body of
-- a response to a request with the header User-Agent; `copy_body` is `io.Copy` into the file.
pub record Web (W : Type 0) : Type 0 where
  pub make_dir : Text → Action W Unit
  pub create_temp : Text → Action W Text
  pub remove : Text → W → W
  pub request : Text → Result (Unit {0})
  pub send : Text → Text → Action W (ℕ × Text)
  pub copy_body : Text → Text → Action W ℤ
  pub close : Text → Action W Unit
  pub rename : Text → Text → Action W Unit
  pub now : W → ℕ
  pub since : ℕ → W → Text

abbrev first_piece : List Text → Text
first_piece [] = []
first_piece (e ∷ es) = e

abbrev usable : Text → Text
usable name = if text_eq name dot then [] else if text_eq name slash then [] else name

unfoldable pub filename_for_url : Text → Text
unfolding base split_char trim_space
filename_for_url raw = usable (trim_space (base (first_piece (split_char b'?' raw))))

abbrev or_latest : Text → Text
or_latest name = if is_empty name then codes "latest.data" else name

-- A status as `Update` begins it.
abbrev pub started : HttpSource → SourceStatus
started s = record {
  source = s.id;
  url = s.url;
  path = [];
  bytes = pos 0;
  updated_at = 0;
  duration = [];
  error = [];
}

module _ {W : Type 0} (web : Web W) where
  -- The size of what is stored, the time, and the time that has passed since the start.
  abbrev pub timed : ℕ → ℤ → Action W (ℤ × ℕ × Text)
  timed start written w = (ok (written, web.now w, web.since start w), w)

  -- From a response, its code and its body.
  abbrev pub received : ℕ → Text → Text → ℕ × Text → Action W (ℤ × ℕ × Text)
  received start tmp dest (code, body) =
      if code == 200
      then (do
        written ← within (codes "write download: ") (web.copy_body body tmp)
        _ ← within (codes "close temp file: ") (web.close tmp)
        _ ← within (codes "rename download: ") (web.rename tmp dest)
        timed start written)
      else fail (codes "download status " ++ show_nat code)

  abbrev pub fetched : Text → ℕ → Text → Text → Action W (ℤ × ℕ × Text)
  fetched url start dest tmp = do
    _ ← within (codes "build request: ") (λ w. (web.request url, w))
    response ← within (codes "download: ") (web.send (codes "arcsent-signatures/1.0") url)
    received start tmp dest response

  -- The deferred removal of the temporary file.
  abbrev pub removed : {A : Type 0} → Text → Result A × W → Result A × W
  removed tmp (r, w) = (r, web.remove tmp w)

  unfoldable pub download : Text → ℕ → Text → Text → Action W (ℤ × ℕ × Text)
  unfolding show_nat
  download url start dest_dir dest = do
    _ ← within (codes "create dest dir: ") (web.make_dir dest_dir)
    tmp ← within (codes "create temp file: ") (web.create_temp dest_dir)
    λ w. removed tmp (fetched url start dest tmp w)

  abbrev pub finished :
      HttpSource → Text → Result (ℤ × ℕ × Text) × W → (SourceStatus × Option Text) × W
  finished s dest (err text, w) = ((started s, some text), w)
  finished s dest (ok (written, now, passed), w) = (
    (
      record (started s) { path = dest; bytes = written; updated_at = now; duration = passed },
      none,
    ),
    w,
  )

  -- The file that a source's download is stored in.
  abbrev pub destination : HttpSource → Text → Text
  destination s dest_dir = join dest_dir (or_latest (filename_for_url s.url))

  -- `Update`: the status, the error, and the state after it.
  unfoldable pub update : HttpSource → Text → W → (SourceStatus × Option Text) × W
  unfolding download filename_for_url join
  update s dest_dir w =
      if is_empty s.url
      then ((started s, some (codes "no URL configured for source " ++ s.id)), w)
      else finished s (destination s dest_dir)
          (download s.url (web.now w) dest_dir (destination s dest_dir) w)

  -- `update` by its steps, each of them shut.
  pub update_lem :
      (s : HttpSource) (dest_dir : Text) (w : W)
      → update s dest_dir w ≡ (
          if is_empty s.url
          then ((started s, some (codes "no URL configured for source " ++ s.id)), w)
          else finished s
              (destination s dest_dir)
              (download s.url (web.now w) dest_dir (destination s dest_dir) w))
  unfolding update
  update_lem s dest_dir w = refl
