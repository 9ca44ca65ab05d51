-- ===== src/Api.antt =====
-- internal/api/admin.go: the handlers of the administration. A handler takes the parts of the address
-- and of the body, `none` where they cannot be read, and gives the status code with the body of the
-- answer. The database answers each statement; a constraint that a statement breaks is a 500.
use recodarr.Prelude.{
  ℕ, zero, suc, ◌+◌, ◌-◌, ◌*◌, ◌/◌, ◌%◌, ◌≤◌, ◌<◌, ◌≡◌, ◌≢◌, refl, sym, ap, ◌∙◌, Bool, true, false,
  not, ◌&&◌, ◌||◌, Text, codes, text_eq, List, [], ◌∷◌, ◌++◌, Option, none, some, length, take,
  drop, keep, any_of, find_first, count_of, All, ltb, leb, ◌==◌, if◌then◌else◌, arith, Bool-cases,
  Option-cases, inl, inr, ◌⊎◌,
}
pub mod Instances
pub mod Profiles
pub mod Mappings
pub mod Jobs
pub mod Tags
pub mod Progress
pub mod Secrets
pub mod Sane

abbrev pub Answer : Type 0 → Type 0
Answer A = ℕ × Option A
