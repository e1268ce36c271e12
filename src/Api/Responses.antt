-- ===== src/Api/Responses.antt =====
-- What the client makes of a response.
use ar_csent.Prelude.{◌≡◌, ◌≢◌, ◌↔◌, ◌⊎◌, inl, inr, ◌≤◌, Option, arith, ℕ, Bool-cases, ◌==◌}
use ar_csent.Text.{Text}
use ar_csent.Api.{
  Result, ok, err, Storage, RequestInit, Request, Outcome, responded, rejected, is_ok, ◌>>=◌, fetch,
  fetch_request, get_token, read_body, unauthorized, request_failed,
}

-- A 2xx status.
abbrev pub IsOk : ℕ → Type 0
IsOk status = (200 ≤ status) × (status ≤ 299)

-- How a call can succeed: a response with a 2xx status whose body decodes.
abbrev pub Succeeds : {A : Type 0} → (Text → Result A) → Outcome → A → Type 0
Succeeds decode (rejected message) a = ⊥
Succeeds decode (responded res) a = IsOk res.status × (decode res.body ≡ ok a)

-- How it can fail: a network error, a 401, another status outside 2xx, or a body that does not
-- decode, each with its message.
abbrev pub Fails : {A : Type 0} → (Text → Result A) → Outcome → Text → Type 0
Fails decode (rejected message) e = message ≡ e
Fails decode (responded res) e =
    (IsOk res.status × (decode res.body ≡ err e))
    ⊎ ((¬ IsOk res.status) × (res.status ≡ 401) × (e ≡ unauthorized))
    ⊎ ((¬ IsOk res.status) × (res.status ≢ 401) × (e ≡ request_failed res.status_text))

module _ {A : Type 0} (transport : Request → Outcome) (decode : Text → Result A) (storage : Storage)
    (path : Text) (options : Option RequestInit) where
  -- `fetch` succeeds with `a` exactly when the answer has a 2xx status and
  -- a body that decodes to `a`.
  pub fetch-eq-ok_iff :
      (a : A)
      → (fetch transport decode storage path options ≡ ok a)
        ↔ Succeeds decode (transport (fetch_request (get_token storage) path options)) a
  unfolding fetch
  fetch-eq-ok_iff a = (to (transport _), from (transport _))
    where
      to : (o : Outcome) → (read_body o >>= decode) ≡ ok a → Succeeds decode o a
      to (rejected m) h = cc
      to (responded res) h = ground arith

      from : (o : Outcome) → Succeeds decode o a → (read_body o >>= decode) ≡ ok a
      from (rejected m) h = absurd h
      from (responded res) h = ground arith

  -- `fetch` fails with the message `e` exactly when the network fails with it, the body of a 2xx answer
  -- does not decode with it, a 401 gives "Unauthorized", or another status gives its text.
  pub fetch-eq-err_iff :
      (e : Text)
      → (fetch transport decode storage path options ≡ err e)
        ↔ Fails decode (transport (fetch_request (get_token storage) path options)) e
  unfolding fetch
  fetch-eq-err_iff e = (to (transport _), from (transport _))
    where
      to : (o : Outcome) → (read_body o >>= decode) ≡ err e → Fails decode o e
      to (rejected m) h = ground arith
      to (responded res) h = elim (Bool-cases (is_ok res.status)) [
        | inl fine ↦ inl (ground arith, ground arith)
        | inr bad ↦ elim (Bool-cases (res.status == 401)) [
          | inl same ↦ inr (inl (ground arith, ground arith, ground arith))
          | inr other ↦ inr (inr (ground arith, ground arith, ground arith))
        ]
      ]

      from : (o : Outcome) → Fails decode o e → (read_body o >>= decode) ≡ err e
      from (rejected m) h = rw h
      from (responded res) h = ground arith
