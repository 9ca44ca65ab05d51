-- ===== src/Auth/Limiter.antt =====
-- internal/auth/ratelimit.go: LoginLimiter. The map of entries is a list of keys and entries, and
-- times are nanoseconds.
use recodarr.Prelude.Paths.{is_empty}
use recodarr.Prelude.{
  ℕ, zero, suc, ◌+◌, ◌-◌, ◌*◌, ◌/◌, ◌%◌, ◌≤◌, ◌<◌, ◌≡◌, ◌≢◌, refl, sym, ap, ◌∙◌, Bool, true, false,
  not, ◌&&◌, ◌||◌, Text, codes, text_eq, List, [], ◌∷◌, ◌++◌, Option, none, some, length, take,
  drop, keep, any_of, find_first, count_of, All, ltb, leb, ◌==◌, if◌then◌else◌, arith, Bool-cases,
  Option-cases, inl, inr, ◌⊎◌,
}
pub mod Laws
pub mod Rate

pub record Entry : Type 0 where
  pub failures : ℕ
  pub next_ok : ℕ

abbrev pub Entries : Type 0
Entries = List (Text × Entry)

abbrev pub max_entries : ℕ
max_entries = 4096

abbrev pub second : ℕ
second = 1000000000

-- 1 * time.Hour
abbrev pub retention_after_ready : ℕ
retention_after_ready = 3600 * second

abbrev pub no_entry : Entry
no_entry = record { failures = 0; next_ok = 0 }

abbrev pub lookup : Text → Entries → Option Entry
lookup key [] = none
lookup key ((k, e) ∷ l) = if text_eq k key then some e else lookup key l

abbrev pub without : Text → Entries → Entries
without key [] = []
without key ((k, e) ∷ l) = if text_eq k key then without key l else (k, e) ∷ without key l

unfoldable pub backoff_for : ℕ → ℕ
backoff_for n =
    if leb n 3
    then 0
    else if n == 4
    then 2 * second
    else if n == 5
    then 4 * second
    else if n == 6
    then 8 * second
    else if n == 7
    then 16 * second
    else if n == 8
    then 30 * second
    else if n == 9
    then 60 * second
    else if n == 10
    then 120 * second
    else 300 * second

abbrev pub allow_entry : ℕ → Option Entry → Bool × ℕ
allow_entry now none = (true, 0)
allow_entry now (some e) = if ltb now e.next_ok then (false, e.next_ok - now) else (true, 0)

unfoldable pub allow : Text → ℕ → Entries → Bool × ℕ
allow key now l = allow_entry now (lookup key l)

-- `nextOK.Before(cutoff)`
abbrev pub is_stale : ℕ → Entry → Bool
is_stale now e = ltb (e.next_ok + retention_after_ready) now

unfoldable pub sweep : ℕ → Entries → Entries
sweep now [] = []
sweep now ((k, e) ∷ l) = if is_stale now e then sweep now l else (k, e) ∷ sweep now l

-- The key of the entry with the least `nextOK`, after `key` with `t`.
unfoldable pub oldest_from : Text → ℕ → Entries → Text
oldest_from key t [] = key
oldest_from key t ((k, e) ∷ l) =
    let newer = oldest_from key t l in
    let older = oldest_from k e.next_ok l in if ltb e.next_ok t then older else newer

unfoldable pub evict_oldest : Entries → Entries
unfolding oldest_from
evict_oldest [] = []
evict_oldest ((k, e) ∷ l) =
    let key = oldest_from k e.next_ok l in
    if is_empty key then (k, e) ∷ l else without key ((k, e) ∷ l)

abbrev pub failed_again : ℕ → Entry → Entry
failed_again now e = record {
  failures = e.failures + 1;
  next_ok = now + backoff_for (e.failures + 1);
}

-- The entries in which a new key finds room.
unfoldable pub make_room : ℕ → Entries → Entries
unfolding sweep evict_oldest
make_room now l =
    let swept = sweep now l in if leb max_entries (length swept) then evict_oldest swept else swept

unfoldable pub register_failure : Text → ℕ → Entries → Entries
unfolding make_room
register_failure key now l = elim (lookup key l) [
  | none ↦ (key, failed_again now no_entry) ∷ make_room now l
  | some e ↦ (key, failed_again now e) ∷ without key l
]

unfoldable pub reset : Text → Entries → Entries
reset key l = without key l
