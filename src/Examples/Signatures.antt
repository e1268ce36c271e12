-- ===== src/Examples/Signatures.antt =====
-- The updater of the signatures over a world that counts its writes, and an archive that leaves its
-- destination.
use ar_csent.Prelude.{
  ◌≡◌, ◌∙◌, if◌then◌else◌, refl, true, false, none, some, List, [], ◌∷◌, String, pos, inl, inr,
}
use ar_csent.Text.{Text, codes, text_eq, split_char}
use ar_csent.Dict.{Dict, get, set}
use ar_csent.Dict.Laws.{get-set}
use ar_csent.Api.{Result, ok, err}
use ar_csent.GoPaths.{clean, dir, base, elements, joined}
use ar_csent.Storage.{as_result}
use ar_csent.Storage.Buckets.{Codec}
use ar_csent.Signatures.{SourceStatus, Status, Config, return}
use ar_csent.Signatures.Paths.{safe_extract_path, Inside, safe_extract_path-Inside}
use ar_csent.Signatures.Download.{Web, filename_for_url}
use ar_csent.Signatures.Archives.{Files, Kind, TarEntry}
use ar_csent.Signatures.Extraction.{Keeps, Allows, extract-Keeps}
use ar_csent.Signatures.Archives.{extract_zip, extract_tar_gz, extract_tar}
use ar_csent.Signatures.Stored.{save_status, load_status}
use ar_csent.Signatures.Updater.{Updater, new_updater, run_once, trigger}
use ar_csent.Signatures.Reports.{Reported, run_once-Reported}
use ar_csent.Signatures.Shown.{update-shown}
use ar_csent.Server.Handlers.{handle_signatures_status, handle_signatures_update}
use ar_csent.Server.Http.{Request, response}
use ar_csent.Examples.Shown.{forms_with, backend_of}
use ar_csent.Examples.Database.{Db, empty, memory, memory-IsLawful}

abbrev cache_dir : Text
cache_dir = codes "/var/lib/arcsent"

cleaned : clean (codes "/a/./b//../c/../../d/") ≡ codes "/d"
unfolding clean elements joined split_char text_eq
cleaned = refl

cleaned_relative : clean (codes "../x/../..") ≡ codes "../.."
unfolding clean elements joined split_char text_eq
cleaned_relative = refl

directory_of : dir (codes "/a/b/c.json") ≡ codes "/a/b"
unfolding dir clean elements joined split_char text_eq
directory_of = refl

named :
    filename_for_url (codes "https://nvd.nist.gov/feeds/recent.json.gz?x=1")
    ≡ codes "recent.json.gz"
unfolding filename_for_url base split_char text_eq
named = refl

escaping :
    safe_extract_path cache_dir (codes "a/../../etc/passwd")
    ≡ err (codes "invalid path traversal: a/../../etc/passwd")
unfolding safe_extract_path text_eq
escaping = refl

safe_extract_path-Inside_example : Inside cache_dir (codes "/var/lib/arcsent/nvd/recent.json")
unfolding safe_extract_path text_eq
safe_extract_path-Inside_example =
    safe_extract_path-Inside cache_dir (codes "/nvd/./x/../recent.json")
      (codes "/var/lib/arcsent/nvd/recent.json") refl refl

-- A world of files and their contents.
abbrev World : Type 0
World = Dict Text

abbrev archive : List (Result TarEntry)
archive =
    ok (record { name = codes "nvd/recent.json"; kind = Kind.regular; body = codes "{}" })
    ∷ ok (record { name = codes "../../../etc/passwd"; kind = Kind.regular; body = codes "x" })
    ∷ []

abbrev files : Files World
files = record {
  is_dir = λ path. return false;
  make_dir = λ path. return tt;
  open_file = λ path. return path;
  create = λ path w. (ok tt, set path [] w);
  copy = λ content path w. (ok tt, set path content w);
  sync = λ path. return tt;
  gunzip = λ content. return content;
  tar = λ content. archive;
  open_zip = λ path. return [];
  open_entry = λ f. return f.body;
  walk = λ path w. [];
  rel = λ src path. ok path;
}

abbrev passwd : Text
passwd = codes "/etc/passwd"

abbrev Untouched : World → Type 0
Untouched w = get passwd w ≡ some (codes "root")

outside : (path : Text) → Inside cache_dir path → text_eq path passwd ≡ false
unfolding text_eq clean elements joined split_char
outside path (inl e) = rw e refl
outside path (inr (rest, e, names)) = rw e refl

untouched :
    (path content : Text) (w : World)
    → Inside cache_dir path
    → Untouched w
    → Untouched (set path content w)
untouched path content w inside h = get-set path passwd content w ∙ rw (outside path inside) h

files-Allows : Allows files Untouched cache_dir
files-Allows = record {
  open_file = λ src w h. h;
  gunzip = λ file w h. h;
  open_zip = λ src w h. h;
  open_entry = λ f w h. h;
  make_dir = λ path inside w h. h;
  make_parent = λ path inside w h. h;
  create = λ path inside w h. untouched path [] w inside h;
  copy = λ content path inside w h. untouched path content w inside h;
}

extract-Keeps_example :
    Keeps Untouched (extract_zip files (codes "/mnt/a.zip") cache_dir)
    × Keeps Untouched (extract_tar_gz files (codes "/mnt/a.zip") cache_dir)
    × Keeps Untouched (extract_tar files (codes "/mnt/a.zip") cache_dir)
extract-Keeps_example =
    extract-Keeps files Untouched cache_dir refl files-Allows (codes "/mnt/a.zip")

traversal :
    (extract_tar files (codes "/mnt/a.tar") cache_dir []).0
    ≡ err (codes "invalid path traversal: ../../../etc/passwd")
unfolding extract_tar safe_extract_path text_eq set
traversal = refl

abbrev web : Web World
web = record {
  make_dir = λ path. return tt;
  create_temp = λ path. return (codes "download-1");
  remove = λ path w. w;
  request = λ url. ok tt;
  send = λ agent url.
      return (if text_eq url (codes "http://mirror/epss.csv") then 503 else 200, codes "{}");
  copy_body = λ body path. return (pos 2);
  close = λ path. return tt;
  rename = λ old new w. (ok tt, set new (codes "{}") w);
  now = λ w. 40;
  since = λ start w. codes "1s";
}

abbrev cfg : Config
cfg = record {
  enabled = true;
  update_interval = pos 60;
  sources = codes "nvd" ∷ codes "epss" ∷ codes "feed" ∷ [];
  cache_dir = cache_dir;
  airgap_import_path = [];
  source_urls = (codes "epss", codes "http://mirror/epss.csv") ∷ [];
}

abbrev source_status : String → String → String → SourceStatus
source_status source url error = record {
  source = codes source;
  url = codes url;
  path = [];
  bytes = pos 0;
  updated_at = 0;
  duration = [];
  error = codes error;
}

abbrev nvd_status : SourceStatus
nvd_status =
    record (source_status "nvd" "https://nvd.nist.gov/feeds/json/cve/2.0/nvdcve-2.0-recent.json.gz"
      "") {
        path = codes "/var/lib/arcsent/nvd/nvdcve-2.0-recent.json.gz";
        bytes = pos 2;
        updated_at = 40;
        duration = codes "1s";
      }

abbrev expected : Status
expected = record {
  last_run = 40;
  next_run = 100;
  airgap_mode = false;
  airgap_import_path = [];
  sources =
      (codes "nvd", nvd_status)
      ∷ (codes "epss", source_status "epss" "http://mirror/epss.csv" "download status 503")
      ∷ (codes "feed", source_status "feed" "" "source not registered")
      ∷ [];
}

-- A stand-in for encoding/json, right for the status of the run.
abbrev codec : Codec Status
codec = record { encode = λ st. ok (st.last_run ∷ []); decode = λ raw. ok expected }

abbrev updater : Updater
updater = new_updater cfg

ran : (run_once web files memory codec updater [] none).status ≡ expected
unfolding run_once new_updater text_eq set
ran = refl

run_once-Reported_example :
    Reported web files memory codec updater
      (codes "epss")
      (get (codes "epss") (run_once web files memory codec updater [] none).status.sources)
unfolding new_updater get
run_once-Reported_example =
    run_once-Reported web files memory codec updater [] none (codes "epss") refl (refl, tt) refl

abbrev saved : Db
saved = (save_status memory codec expected empty).0

abbrev post : Request
post = record { method = codes "POST"; path = []; authorization = []; query_token = [] }

abbrev show : Status → Text
show status = status.last_run ∷ []

update-shown_example :
    ((trigger web files memory codec updater [] (some empty)).3 ≡ some saved)
    × (handle_signatures_update
          (forms_with show)
          (backend_of none (some (trigger web files memory codec updater [] (some empty)).0))
          post
        ≡ response 200 (40 ∷ []))
    × (handle_signatures_status
          (forms_with show)
          (backend_of (some (as_result (load_status memory codec saved))) none)
        ≡ response 200 (40 ∷ []))
unfolding trigger new_updater text_eq set save_status memory
update-shown_example =
    update-shown web files memory codec (forms_with show)
      (backend_of none (some (trigger web files memory codec updater [] (some empty)).0))
      (backend_of (some (as_result (load_status memory codec saved))) none) post updater [] empty
      saved expected memory-IsLawful (λ raw e. refl) refl refl refl refl refl
