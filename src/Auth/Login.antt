-- ===== src/Auth/Login.antt =====
-- internal/api/auth.go: the handlers of setup, login and logout.
use recodarr.Prelude.{
  ℕ, zero, suc, ◌+◌, ◌-◌, ◌*◌, ◌/◌, ◌%◌, ◌≤◌, ◌<◌, ◌≡◌, ◌≢◌, refl, sym, ap, ◌∙◌, Bool, true, false,
  not, ◌&&◌, ◌||◌, Text, codes, text_eq, List, [], ◌∷◌, ◌++◌, Option, none, some, length, take,
  drop, keep, any_of, find_first, count_of, All, ltb, leb, ◌==◌, if◌then◌else◌, arith, Bool-cases,
  Option-cases, inl, inr, ◌⊎◌,
}
use recodarr.Auth.Limiter.{Entries, allow, register_failure, reset}
use recodarr.Auth.Sessions.{
  Bcrypt, AuthDb, AuthError, Answer, ok, err, already_setup, create_admin, verify_password,
  create_session, delete_session,
}
pub mod Laws

-- The status code, the session cookie that is set, and Retry-After.
pub record Response : Type 0 where
  pub code : ℕ
  pub cookie : Option Text
  pub retry_after : Option ℕ

abbrev pub only_code : ℕ → Response
only_code n = record { code = n; cookie = none; retry_after = none }

abbrev pub LoginState : Type 0
LoginState = Entries × AuthDb

-- CreateSession and the cookie.
unfoldable pub open_session : ℕ → Option Text → ℕ → AuthDb → Response × AuthDb
unfolding create_session
open_session now random user db =
    let (answer, db') = create_session now random user db in
    elim answer [
      | ok (t, expires) ↦ (record { code = 200; cookie = some t; retry_after = none }, db')
      | err e ↦ (only_code 500, db')
    ]

abbrev setup_error : AuthError → ℕ
setup_error already_setup = 409
setup_error _ = 400

unfoldable pub auth_setup :
    Bcrypt → ℕ → Option Text → Option (Text × Text) → AuthDb → Response × AuthDb
unfolding open_session create_admin verify_password
auth_setup b now random none db = (only_code 400, db)
auth_setup b now random (some (name, password)) db =
    let (created, db') = create_admin b name password db in
    elim created [
      | err e ↦ (only_code (setup_error e), db')
      | ok u ↦ elim (verify_password b name password db') [
        | err e ↦ (only_code 500, db')
        | ok user ↦ open_session now random user db'
      ]
    ]

-- A body that is no JSON is `none`. `int(retry.Seconds()) + 1` rounds down.
unfoldable pub auth_login :
    Bcrypt → ℕ → Option Text → Text → Option (Text × Text) → LoginState → Response × LoginState
unfolding allow register_failure reset verify_password open_session
auth_login b now random key none st = (only_code 400, st)
auth_login b now random key (some (name, password)) (l, db) =
    let (allowed, retry) = allow key now l in
    if not allowed
    then (
      record { code = 429; cookie = none; retry_after = some (retry / 1000000000 + 1) },
      (l, db),
    )
    else elim (verify_password b name password db) [
      | err e ↦ (only_code 401, (register_failure key now l, db))
      | ok user ↦
          let (response, db') = open_session now random user db in (response, (reset key l, db'))
    ]

unfoldable pub auth_logout : Option Text → AuthDb → Response × AuthDb
unfolding delete_session
auth_logout none db = (only_code 204, db)
auth_logout (some c) db = (only_code 204, delete_session c db)
