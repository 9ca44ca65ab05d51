-- ===== src/Auth/Login/Laws.antt =====
-- internal/api/auth.go: what a login takes and gives.
use recodarr.Auth.Sessions.{Answer-cases}
use recodarr.Auth.Limiter.Laws.{lookup-without, allow-register_failure, failures_of}
use recodarr.Auth.Sessions.Laws.{is_ok}
use recodarr.Auth.Limiter.{reset, register_failure, lookup, backoff_for}
use recodarr.Prelude.{
  ℕ, ◌+◌, ◌<◌, ◌≡◌, refl, true, false, Text, Option, none, some, arith, Bool-cases, inl, inr, ◌⊎◌,
}
use recodarr.Auth.Login.{open_session, verify_password, allow, AuthDb, Entries, Bcrypt, auth_login}

refused_until :
    (key : Text) (now later : ℕ) (l : Entries)
    → later < now + backoff_for (failures_of (lookup key l) + 1)
    → (allow key later (register_failure key now l)).0 ≡ false
refused_until key now later l t = ground (arith, allow-register_failure key now later l)

auth_login-refused :
    (b : Bcrypt) (now : ℕ) (random : Option Text) (key : Text) (creds : Text × Text) (l : Entries)
    (db : AuthDb)
    → (allow key now l).0 ≡ false
    → ((auth_login b now random key (some creds) (l, db)).0.code ≡ 429)
      × ((auth_login b now random key (some creds) (l, db)).1 ≡ (l, db))
unfolding auth_login
auth_login-refused b now random key (name, password) l db h =
    (rw (auth_login, h) refl, rw (auth_login, h) refl)

open_session-code :
    (now : ℕ) (random : Option Text) (user : ℕ) (db : AuthDb)
    → ((open_session now random user db).0.code ≡ 200)
      ⊎ ((open_session now random user db).0.code ≡ 500)
unfolding open_session
open_session-code now random user db = ground arith

-- The state after a login with the code 401.
auth_login-counted :
    (b : Bcrypt) (now : ℕ) (random : Option Text) (key : Text) (creds : Text × Text) (l : Entries)
    (db : AuthDb)
    → (auth_login b now random key (some creds) (l, db)).0.code ≡ 401
    → (auth_login b now random key (some creds) (l, db)).1 ≡ (register_failure key now l, db)
unfolding auth_login
auth_login-counted b now random key (name, password) l db h =
    elim (Bool-cases (allow key now l).0) [
      | inl t ↦ elim (Answer-cases (verify_password b name password db)) [
        | inl (x, e) ↦ elim (open_session-code now random x db) [
          | inl c ↦ absurd (omega (arith, c, rw (auth_login, t, e) at h))
          | inr c ↦ absurd (omega (arith, c, rw (auth_login, t, e) at h))
        ]
        | inr (x, e) ↦ rw (auth_login, t, e) refl
      ]
      | inr f ↦
          absurd (omega (arith, (auth_login-refused b now random key (name, password) l db f).0))
    ]

-- After a wrong password, no login of that key passes before the waiting time for its failures is
-- over, whatever name and password it comes with, and the tables stay as they are.
pub auth_login-throttles :
    (b : Bcrypt) (now later : ℕ) (random random' : Option Text) (key : Text)
    (creds creds' : Text × Text) (l : Entries) (db : AuthDb)
    → (auth_login b now random key (some creds) (l, db)).0.code ≡ 401
    → later < now + backoff_for (failures_of (lookup key l) + 1)
    → ((auth_login b later random' key
          (some creds')
          (auth_login b now random key (some creds) (l, db)).1).0.code
        ≡ 429)
      × ((auth_login b later random' key
            (some creds')
            (auth_login b now random key (some creds) (l, db)).1).1
          ≡ (auth_login b now random key (some creds) (l, db)).1)
auth_login-throttles b now later random random' key creds creds' l db h t =
    rw (auth_login-counted b now random key creds l db h) (
      auth_login-refused b later random' key creds' (register_failure key now l) db
        (refused_until key now later l t))

-- A login that succeeds was allowed and had the right password; it clears the failures of the key.
pub auth_login-success :
    (b : Bcrypt) (now : ℕ) (random : Option Text) (key name password : Text) (l : Entries)
    (db : AuthDb)
    → (auth_login b now random key (some (name, password)) (l, db)).0.code ≡ 200
    → ((allow key now l).0 ≡ true)
      × (is_ok (verify_password b name password db) ≡ true)
      × (lookup key (auth_login b now random key (some (name, password)) (l, db)).1.0 ≡ none)
unfolding auth_login reset
auth_login-success b now random key name password l db h = elim (Bool-cases (allow key now l).0) [
  | inr f ↦ absurd (omega (arith, (auth_login-refused b now random key (name, password) l db f).0))
  | inl t ↦ elim (Answer-cases (verify_password b name password db)) [
    | inl (x, e) ↦ (t, rw e refl, rw (auth_login, t, e) (lookup-without key l))
    | inr (x, e) ↦ absurd (omega (arith, rw (auth_login, t, e) at h))
  ]
]
