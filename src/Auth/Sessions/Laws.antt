-- ===== src/Auth/Sessions/Laws.antt =====
-- internal/auth/auth.go: the laws of the sessions and of the administrator.
use recodarr.Prelude.{
  length-append, text_eq_refl, ℕ, ◌+◌, ◌≤◌, ◌≡◌, refl, Bool, true, false, not, ◌||◌, Text, text_eq,
  List, [], ◌∷◌, ◌++◌, Option, none, some, length, keep, ltb, if◌then◌else◌, arith, Bool-cases, inl,
  inr,
}
use recodarr.Auth.Sessions.{
  insert_admin, is_empty, Bcrypt, User, Session, AuthDb, bad_credential, Answer, ok, err,
  session_lifetime, has_admin, create_admin, add_user, find_user, verify_password, create_session,
  find_session, delete_session, lookup_session,
}

find_session-append :
    (t : Text) (ss : List Session) (s : Session)
    → find_session t ss ≡ none
    → text_eq s.token t ≡ true
    → find_session t (ss ++ s ∷ []) ≡ some s
find_session-append t [] s h e = rw e refl
find_session-append t (r ∷ ss) s h e = ground (arith, find_session-append t ss s)

first_of_if {ℓ} :
    {A B : Type ℓ} (b : Bool) (x y : A × B) → (if b then x else y).0 ≡ (if b then x.0 else y.0)
first_of_if true x y = refl
first_of_if false x y = refl

-- A new session is its user's for its lifetime, and no longer, if its token is new and not empty.
pub lookup_session-create_session :
    (now u user : ℕ) (t : Text) (db : AuthDb)
    → is_empty t ≡ false
    → find_session t db.sessions ≡ none
    → (lookup_session u t (create_session now (some t) user db).1).0
      ≡ (if ltb (now + session_lifetime) u then err bad_credential else ok user)
unfolding create_session lookup_session
lookup_session-create_session now u user t db n h =
    rw
      (
        n,
        h,
        find_session-append t db.sessions
            (record { token = t; session_user = user; expires_at = now + session_lifetime }) h
            (text_eq_refl t),
      )
      (first_of_if (ltb (now + session_lifetime) u) _ _)

find_session-keep :
    (t : Text) (ss : List Session) → find_session t (keep (λ s. not (text_eq s.token t)) ss) ≡ none
find_session-keep t [] = refl
find_session-keep t (s ∷ ss) = ground (arith, find_session-keep t ss)

-- A token whose session was deleted is refused.
pub lookup_session-delete_session :
    (now : ℕ) (t : Text) (db : AuthDb)
    → (lookup_session now t (delete_session t db)).0 ≡ err bad_credential
unfolding lookup_session delete_session
lookup_session-delete_session now t db = ground (arith, find_session-keep t db.sessions)

abbrev pub is_ok : {A : Type 0} → Answer A → Bool
is_ok (ok a) = true
is_ok (err e) = false

-- What a setup that succeeds does.
record SetUp (b : Bcrypt) (name password : Text) (db after : AuthDb) : Type 0 where
  pub hashed : Text
  pub hash_of : b.hash password ≡ some hashed
  pub first : length db.users ≡ 0
  pub stored : after ≡ add_user name hashed db

insert_admin-SetUp :
    (b : Bcrypt) (name password : Text) (o : Option Text) (db : AuthDb)
    → b.hash password ≡ o
    → is_ok (insert_admin name o db).0 ≡ true
    → SetUp b name password db (insert_admin name o db).1
unfolding insert_admin has_admin
insert_admin-SetUp b name password none db e h = cc
insert_admin-SetUp b name password (some x) db e h = elim (Bool-cases (has_admin db)) [
  | inl t ↦ absurd (cc (rw (t, insert_admin) at h))
  | inr f ↦ record {
    hashed = x;
    hash_of = e;
    first = ground arith;
    stored = rw (f, insert_admin) refl;
  }
]

create_admin-SetUp :
    (b : Bcrypt) (name password : Text) (db : AuthDb)
    → is_ok (create_admin b name password db).0 ≡ true
    → SetUp b name password db (create_admin b name password db).1
unfolding create_admin
create_admin-SetUp b name password db h = elim (Bool-cases (is_empty name || is_empty password)) [
  | inl t ↦ absurd (cc (rw (t, create_admin) at h))
  | inr f ↦
      rw (f, create_admin)
        (insert_admin-SetUp b name password _ db refl (rw (f, create_admin) at h))
]

SetUp-length :
    {b : Bcrypt} {name password : Text} {db after : AuthDb}
    → SetUp b name password db after
    → length after.users ≡ 1
SetUp-length {b} {name} {password} {db} {after} v =
    let appended =
      length-append db.users
        (record { user_id = db.next_user; username = name; password_hash = v.hashed } ∷ []) in
    rw v.stored (omega (arith, v.first, appended))

insert_admin-failed :
    (name : Text) (o : Option Text) (db : AuthDb)
    → is_ok (insert_admin name o db).0 ≡ false
    → (insert_admin name o db).1 ≡ db
unfolding insert_admin
insert_admin-failed name none db h = refl
insert_admin-failed name (some x) db h = elim (Bool-cases (has_admin db)) [
  | inl t ↦ rw (t, insert_admin) refl
  | inr f ↦ absurd (cc (rw (f, insert_admin) at h))
]

create_admin-failed :
    (b : Bcrypt) (name password : Text) (db : AuthDb)
    → is_ok (create_admin b name password db).0 ≡ false
    → (create_admin b name password db).1 ≡ db
unfolding create_admin
create_admin-failed b name password db h = elim (Bool-cases (is_empty name || is_empty password)) [
  | inl t ↦ rw (t, create_admin) refl
  | inr f ↦ rw (f, create_admin) (insert_admin-failed name _ db (rw (f, create_admin) at h))
]

-- Only the first setup succeeds: after a success every setup fails, with any name and password.
pub create_admin_once :
    (b : Bcrypt) (name password name' password' : Text) (db : AuthDb)
    → is_ok (create_admin b name password db).0 ≡ true
    → is_ok (create_admin b name' password' (create_admin b name password db).1).0 ≡ false
create_admin_once b name password name' password' db h =
    let after = (create_admin b name password db).1 in
    elim (Bool-cases (is_ok (create_admin b name' password' after).0)) [
      | inl t ↦ absurd (
          omega (
            arith,
            SetUp-length (create_admin-SetUp b name password db h),
            (create_admin-SetUp b name' password' after t).first,
          ))
      | inr f ↦ f
    ]

-- There is at most one administrator, whatever setups are tried.
pub create_admin-length :
    (b : Bcrypt) (name password : Text) (db : AuthDb)
    → length db.users ≤ 1
    → length (create_admin b name password db).1.users ≤ 1
create_admin-length b name password db h =
    elim (Bool-cases (is_ok (create_admin b name password db).0)) [
      | inl t ↦ omega (arith, SetUp-length (create_admin-SetUp b name password db t))
      | inr f ↦ rw (create_admin-failed b name password db f) h
    ]

find_user-first :
    (name : Text) (us : List User) (u : User)
    → length us ≡ 0
    → text_eq u.username name ≡ true
    → find_user name (us ++ u ∷ []) ≡ some u
find_user-first name [] u h e = rw e refl
find_user-first name (x ∷ us) u h e = absurd (omega arith)

-- Who was set up can log in with the password, if bcrypt accepts a hash of a password for it.
pub verify_password-create_admin :
    (b : Bcrypt) (name password : Text) (db : AuthDb)
    → ((p h : Text) → b.hash p ≡ some h → b.check h p ≡ true)
    → is_ok (create_admin b name password db).0 ≡ true
    → verify_password b name password (create_admin b name password db).1 ≡ ok db.next_user
unfolding verify_password
verify_password-create_admin b name password db c h =
    let v = create_admin-SetUp b name password db h in
    rw
      (
        v.stored,
        verify_password,
        find_user-first name db.users
            (record { user_id = db.next_user; username = name; password_hash = v.hashed }) v.first
            (text_eq_refl name),
        c password v.hashed v.hash_of,
      )
      refl
