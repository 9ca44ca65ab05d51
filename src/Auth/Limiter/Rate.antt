-- ===== src/Auth/Limiter/Rate.antt =====
-- internal/auth/ratelimit.go: the guesses of one key.
use recodarr.Auth.Limiter.Laws.{allow-register_failure, lookup-register_failure, failures_of}
use recodarr.Auth.Limiter.{backoff_for, second, lookup, register_failure, allow, Entries}
use recodarr.Prelude.{ℕ, ◌+◌, ◌*◌, ◌≤◌, ◌≡◌, Bool, true, ◌&&◌, Text, List, [], ◌∷◌, length, arith}

-- Every guess is allowed at its time, and fails.
unfoldable pub all_allowed : Text → List ℕ → Entries → Bool
all_allowed key [] l = true
all_allowed key (t ∷ ts) l = (allow key t l).0 && all_allowed key ts (register_failure key t l)

abbrev pub last_of : ℕ → List ℕ → ℕ
last_of t [] = t
last_of t (u ∷ us) = last_of u us

and_true : (a b : Bool) → (a && b) ≡ true → (a ≡ true) × (b ≡ true)
and_true a b h = ground arith

waits :
    (key : Text) (t u : ℕ) (l : Entries)
    → 10 ≤ failures_of (lookup key l)
    → (allow key u (register_failure key t l)).0 ≡ true
    → t + 300 * second ≤ u
unfolding backoff_for
waits key t u l f h = ground (arith, allow-register_failure key t u l)

-- A key with ten failures or more gets one guess in five minutes: between the first and the last of a
-- sequence of allowed guesses there are five minutes for each guess but one.
pub all_allowed-rate :
    (key : Text) (t : ℕ) (ts : List ℕ) (l : Entries)
    → 10 ≤ failures_of (lookup key l)
    → all_allowed key (t ∷ ts) l ≡ true
    → t + 300 * second * length ts ≤ last_of t ts
unfolding all_allowed
all_allowed-rate key t [] l f h = omega arith
all_allowed-rate key t (u ∷ ts) l f h =
    let (now, later) = and_true _ _ h in
    let rest = register_failure key t l in
    let counted = lookup-register_failure key t l in
    omega (
      arith,
      waits key t u l f (and_true _ _ later).0,
      all_allowed-rate key u ts rest (rw counted (omega arith)) later,
    )
