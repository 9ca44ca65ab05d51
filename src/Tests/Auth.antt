-- ===== src/Tests/Auth.antt =====
-- The theorems on logins at concrete inputs.
use recodarr.Auth.Limiter.Rate.{all_allowed}
use recodarr.Auth.Login.Laws.{auth_login-throttles}
use recodarr.Auth.Limiter.Rate.{all_allowed-rate}
use recodarr.Auth.Limiter.Laws.{register_failure-IsBounded, IsBounded}
use recodarr.Auth.Limiter.{register_failure, allow, second, Entries, backoff_for}
use recodarr.Auth.Login.{auth_login}
use recodarr.Auth.Sessions.{create_admin, Bcrypt, AuthDb}
use recodarr.Prelude.{
  text_eq_refl, subst, ◌+◌, ◌*◌, ◌≤◌, ◌≡◌, refl, true, Text, codes, text_eq, [], ◌∷◌, none, some,
  arith,
}
use mathlib.Core.Option.{some-injective}

abbrev addr : Text
addr = codes "10.0.0.1"

abbrev one_entry : Entries
one_entry = (addr, record { failures = 10; next_ok = 0 }) ∷ []

-- A bcrypt that marks a password.
abbrev plain_bcrypt : Bcrypt
plain_bcrypt = record { hash = λ p. some (1 ∷ p); check = λ h p. text_eq h (1 ∷ p) }

abbrev no_users : AuthDb
no_users = record { users = []; sessions = []; next_user = 1 }

abbrev admin_db : AuthDb
admin_db = (create_admin plain_bcrypt (codes "admin") (codes "pw") no_users).1

register_failure-IsBounded_example : IsBounded (register_failure addr 7 [])
register_failure-IsBounded_example =
    register_failure-IsBounded addr 7 [] refl (record { named = refl; bounded = omega arith })

all_allowed-rate_example : 5 + 300 * second * 1 ≤ 5 + 300 * second
unfolding text_eq all_allowed allow register_failure backoff_for
all_allowed-rate_example =
    all_allowed-rate addr 5 ((5 + 300 * second) ∷ []) one_entry (omega arith) refl

marks : (p h : Text) → plain_bcrypt.hash p ≡ some h → plain_bcrypt.check h p ≡ true
marks p h e = subst (λ x. text_eq x (1 ∷ p) ≡ true) (some-injective _ _ e) (text_eq_refl (1 ∷ p))

auth_login-throttles_example :
    ((auth_login plain_bcrypt 8 none addr
        (some (codes "admin", codes "pw"))
        (auth_login plain_bcrypt 7 none addr
          (some (codes "admin", codes "no"))
          (one_entry, admin_db)).1).0.code
      ≡ 429)
    × ((auth_login plain_bcrypt 8 none addr
          (some (codes "admin", codes "pw"))
          (auth_login plain_bcrypt 7 none addr
            (some (codes "admin", codes "no"))
            (one_entry, admin_db)).1).1
        ≡ (auth_login plain_bcrypt 7 none addr
            (some (codes "admin", codes "no"))
            (one_entry, admin_db)).1)
unfolding auth_login text_eq create_admin backoff_for
auth_login-throttles_example =
    auth_login-throttles plain_bcrypt 7 8 none none addr (codes "admin", codes "no")
      (codes "admin", codes "pw") one_entry admin_db refl (omega arith)
