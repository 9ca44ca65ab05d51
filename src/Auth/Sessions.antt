-- ===== src/Auth/Sessions.antt =====
-- internal/auth/auth.go: the tables admin_users and sessions. bcrypt is a parameter: `hash` of a
-- password, which may fail, and `check` of a hash and a password. Times are nanoseconds.
use recodarr.Prelude.Paths.{is_empty}
use recodarr.Prelude.{
  ℕ, zero, suc, ◌+◌, ◌-◌, ◌*◌, ◌/◌, ◌%◌, ◌≤◌, ◌<◌, ◌≡◌, ◌≢◌, refl, sym, ap, ◌∙◌, Bool, true, false,
  not, ◌&&◌, ◌||◌, Text, codes, text_eq, List, [], ◌∷◌, ◌++◌, Option, none, some, length, take,
  drop, keep, any_of, find_first, count_of, All, ltb, leb, ◌==◌, if◌then◌else◌, arith, Bool-cases,
  Option-cases, inl, inr, ◌⊎◌,
}
pub mod Laws

pub record Bcrypt : Type 0 where
  pub hash : Text → Option Text
  pub check : Text → Text → Bool

pub record User : Type 0 where
  pub user_id : ℕ
  pub username : Text
  pub password_hash : Text

pub record Session : Type 0 where
  pub token : Text
  pub session_user : ℕ
  pub expires_at : ℕ

pub record AuthDb : Type 0 where
  pub users : List User
  pub sessions : List Session
  pub next_user : ℕ

pub data AuthError : Type 0 where
  bad_credential already_setup missing_field database : AuthError

-- A result, or an error.
pub data Answer (A : Type 0) : Type 0 where
  ok : A → Answer A
  err : AuthError → Answer A

pub Answer-cases :
    {A : Type 0} (x : Answer A) → ((a : A) × (x ≡ ok a)) ⊎ ((e : AuthError) × (x ≡ err e))
Answer-cases (ok a) = inl (a, refl)
Answer-cases (err e) = inr (e, refl)

abbrev pub session_lifetime : ℕ
session_lifetime = 30 * 24 * 3600 * 1000000000

unfoldable pub has_admin : AuthDb → Bool
has_admin db = ltb 0 (length db.users)

abbrev pub add_user : Text → Text → AuthDb → AuthDb
add_user name h db = record db {
  users = db.users ++ record { user_id = db.next_user; username = name; password_hash = h } ∷ [];
  next_user = db.next_user + 1;
}

-- `INSERT … WHERE NOT EXISTS (SELECT 1 FROM admin_users)`, of a hash if there is one.
unfoldable pub insert_admin : Text → Option Text → AuthDb → Answer (Unit {0}) × AuthDb
unfolding has_admin
insert_admin name none db = (err database, db)
insert_admin name (some h) db =
    if has_admin db then (err already_setup, db) else (ok tt, add_user name h db)

unfoldable pub create_admin : Bcrypt → Text → Text → AuthDb → Answer (Unit {0}) × AuthDb
unfolding insert_admin
create_admin b name password db =
    if is_empty name || is_empty password
    then (err missing_field, db)
    else insert_admin name (b.hash password) db

abbrev pub find_user : Text → List User → Option User
find_user name = find_first (λ u. text_eq u.username name)

unfoldable pub verify_password : Bcrypt → Text → Text → AuthDb → Answer ℕ
verify_password b name password db = elim (find_user name db.users) [
  | none ↦ err bad_credential
  | some u ↦ if b.check u.password_hash password then ok u.user_id else err bad_credential
]

abbrev pub find_session : Text → List Session → Option Session
find_session t = find_first (λ s. text_eq s.token t)

-- The random token is `none` if there is no randomness; the token is the primary key.
unfoldable pub create_session : ℕ → Option Text → ℕ → AuthDb → Answer (Text × ℕ) × AuthDb
create_session now none user db = (err database, db)
create_session now (some t) user db = elim (find_session t db.sessions) [
  | some s ↦ (err database, db)
  | none ↦ (
    ok (t, now + session_lifetime),
    record db {
      sessions =
          db.sessions
          ++ record { token = t; session_user = user; expires_at = now + session_lifetime } ∷ [];
    },
  )
]

unfoldable pub delete_session : Text → AuthDb → AuthDb
delete_session t db = record db { sessions = keep (λ s. not (text_eq s.token t)) db.sessions }

unfoldable pub lookup_session : ℕ → Text → AuthDb → Answer ℕ × AuthDb
unfolding delete_session
lookup_session now t db =
    if is_empty t then (err bad_credential, db) else elim (find_session t db.sessions) [
      | none ↦ (err bad_credential, db)
      | some s ↦
          if ltb s.expires_at now
          then (err bad_credential, delete_session t db)
          else (ok s.session_user, db)
    ]

unfoldable pub purge_expired_sessions : ℕ → AuthDb → AuthDb
purge_expired_sessions now db = record db {
  sessions = keep (λ s. not (ltb s.expires_at now)) db.sessions;
}

-- One transaction.
unfoldable pub reset_admin : AuthDb → AuthDb
reset_admin db = record db { users = []; sessions = [] }

-- The user of a request by its cookie, or 401.
unfoldable pub middleware : ℕ → Option Text → AuthDb → Option ℕ × AuthDb
unfolding lookup_session
middleware now none db = (none, db)
middleware now (some c) db =
    let (answer, db') = lookup_session now c db in
    elim answer [ ok user ↦ (some user, db') | err e ↦ (none, db') ]
