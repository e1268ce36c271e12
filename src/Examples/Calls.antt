-- ===== src/Examples/Calls.antt =====
-- Requests and responses of the client.
use ar_csent.Prelude.{◌≡◌, refl, none, some, [], ◌∷◌, Option}
use ar_csent.Text.{Text, codes}
use ar_csent.Dict.{Dict}
use ar_csent.Api.{Result, ok, err, RequestInit, Request, Outcome, responded, fetch}
use ar_csent.Examples.Data.{storage}

abbrev accept : Dict Text
accept = (codes "Accept", codes "text/html") ∷ []

abbrev options : Option RequestInit
options = some (record { method = none; headers = some accept })

-- A server that answers 200 with the URL it was asked, and one that answers 401.
abbrev echo : Request → Outcome
echo q = responded (record { status = 200; status_text = codes "OK"; body = q.url })

abbrev refuse : Request → Outcome
refuse q = responded (record { status = 401; status_text = codes "Unauthorized"; body = [] })

abbrev decode : Text → Result Text
decode body = ok body

statuses :
    (fetch echo decode storage (codes "/status") none ≡ ok (codes "/api/status"))
    × (fetch refuse decode storage (codes "/status") none ≡ err (codes "Unauthorized"))
unfolding fetch
statuses = (refl, refl)
