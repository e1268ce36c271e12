-- ===== src/Signatures/Shown.antt =====
-- internal/signatures and internal/api/server.go: the answers of /signatures/update and
-- /signatures/status.
use ar_csent.Prelude.{◌≡◌, refl, sym, ◌∙◌, ap, inl, inr, true, none, some, Option, Bool-cases}
use ar_csent.Text.{Text, codes, text_eq}
use ar_csent.Api.{ok}
use ar_csent.Server.Http.{Request, response}
use ar_csent.Server.Handlers.{Forms, Backend, handle_signatures_status, handle_signatures_update}
use ar_csent.Storage.{Badger, Run, as_result}
use ar_csent.Storage.Buckets.{Codec}
use ar_csent.Storage.Stored.{IsLawful}
use ar_csent.Signatures.{Status}
use ar_csent.Signatures.Download.{Web}
use ar_csent.Signatures.Archives.{Files}
use ar_csent.Signatures.Stored.{save_status, load_status, load-save}
use ar_csent.Signatures.Updater.{Updater, run_once, trigger}

module _ {W Db : Type 0} (web : Web W) (files : Files W) (badger : Badger Db)
    (codec : Codec Status) where
  trigger-ok :
      (u : Updater) (w : W) (store : Option Db) (status : Status)
      → (trigger web files badger codec u w store).0 ≡ ok status
      → (status ≡ (run_once web files badger codec u w store).status)
        × ((trigger web files badger codec u w store).3
            ≡ (run_once web files badger codec u w store).store)
  unfolding trigger
  trigger-ok u w store status h = elim (Bool-cases u.cfg.enabled) [
    | inl e ↦ (cc (h, e), simp e refl)
    | inr e ↦ cc (h, e)
  ]

-- After an update that succeeds, if Badger is lawful, the status could be written to the database and
-- is decoded as it was encoded: the database is the one with the status, and /signatures/status answers
-- what /signatures/update answered to the POST.
pub update-shown :
    {W Db F J : Type 0} (web : Web W) (files : Files W) (badger : Badger Db) (codec : Codec Status)
    (forms : Forms F J Status) (before after : Backend F J Status) (r : Request) (u : Updater)
    (w : W) (db saved : Db) (status : Status)
    → IsLawful badger
    → ((raw : Text) → codec.encode status ≡ ok raw → codec.decode raw ≡ ok status)
    → text_eq r.method (codes "POST") ≡ true
    → (trigger web files badger codec u w (some db)).0 ≡ ok status
    → save_status badger codec status db ≡ (saved, none)
    → before.triggered ≡ some (trigger web files badger codec u w (some db)).0
    → after.signatures ≡ some (as_result (load_status badger codec saved))
    → ((trigger web files badger codec u w (some db)).3 ≡ some saved)
      × (handle_signatures_update forms before r ≡ response 200 (forms.signatures status))
      × (handle_signatures_status forms after ≡ response 200 (forms.signatures status))
unfolding handle_signatures_update handle_signatures_status run_once
update-shown {Db = Db} web files badger codec forms before after r u w db saved status lawful
      faithful post h stored asked shown =
    let t = trigger-ok web files badger codec u w (some db) status h in
    (
      t.1
          ∙ (ap (λ (s : Status). some (save_status badger codec s db).0) (sym t.0)
              ∙ ap (λ (run : Run Db). some run.0) stored),
      simp (post, asked, h) refl,
      simp (shown, load-save badger codec status db saved lawful faithful stored) refl,
    )
