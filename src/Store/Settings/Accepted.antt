-- ===== src/Store/Settings/Accepted.antt =====
-- internal/api/admin.go: the numbers that putSettings accepts.
use recodarr.Prelude.{
  if◌then◌else◌, if_true, subst, min, ℕ, ◌≡◌, refl, sym, ap, ◌∙◌, Bool, true, ◌&&◌, Text, codes,
  text_eq, Option, none, some, leb, arith, Option-cases, inl, inr,
}
use recodarr.Store.Settings.{
  accepts_texts, accepts_numbers, from, between, given, or_old, AppSettings, SettingsMap,
  load_app_settings, int_setting, number, put_settings, accepts, normalized,
}

abbrev pub number_else : Option ℕ → ℕ → ℕ
number_else none old = old
number_else (some n) old = n

-- The number of a request, if it has one, or the one before.
abbrev pub number_or : Option Text → ℕ → ℕ
number_or none old = old
number_or (some v) old = number_else (number v) old

-- The interval of the worker that a request sets: what is below 5, or no number, counts as 30.
abbrev pub interval_of : Option ℕ → ℕ
interval_of none = 30
interval_of (some n) = if leb 5 n then n else 30

abbrev pub interval_or : Option Text → ℕ → ℕ
interval_or none old = old
interval_or (some v) old = interval_of (number v)

-- The settings in force after a request are the numbers of the request, and the old ones where it has
-- none; but for the interval of the worker, which the handler does not test.
pub record InForce (m : SettingsMap) (old new : AppSettings) : Type 0 where
  pub worker :
      new.worker_interval_seconds
      ≡ interval_or (m (codes "worker_interval_seconds")) old.worker_interval_seconds
  pub parallel :
      new.max_parallel_encodes
      ≡ number_or (m (codes "max_parallel_encodes")) old.max_parallel_encodes
  pub reconcile :
      new.reconcile_interval_seconds
      ≡ number_or (m (codes "reconcile_interval_seconds")) old.reconcile_interval_seconds
  pub log_size : new.log_max_size_mb ≡ number_or (m (codes "log_max_size_mb")) old.log_max_size_mb
  pub log_age : new.log_max_age_days ≡ number_or (m (codes "log_max_age_days")) old.log_max_age_days
  pub log_backups :
      new.log_max_backups ≡ number_or (m (codes "log_max_backups")) old.log_max_backups

put_settings-key :
    (m old : SettingsMap) (k : Text)
    → accepts m ≡ true
    → (put_settings m old).1 k ≡ or_old (normalized m k) (old k)
unfolding put_settings
put_settings-key m old k h =
    subst {A = ℕ × SettingsMap} (λ x. x.1 k ≡ or_old (normalized m k) (old k))
      (sym (if_true (accepts m) (400, old) h refl)) refl

-- A number that is at least the least one is read as it is.
from_in_force :
    (lo d : ℕ) (o old : Option Text)
    → given o (λ v. from lo (number v)) ≡ true
    → int_setting lo d (or_old o old) ≡ number_or o (int_setting lo d old)
unfolding int_setting
from_in_force lo d none old h = refl
from_in_force lo d (some v) old h = elim (Option-cases (number v)) [
  | inl e ↦ absurd (cc (rw e at h))
  | inr (n, e) ↦ rw e (if_true (leb lo n) d (rw e at h) refl)
]

between-from :
    (lo hi : ℕ) (o : Option Text)
    → given o (λ v. between lo hi (number v)) ≡ true
    → given o (λ v. from lo (number v)) ≡ true
between-from lo hi none h = refl
between-from lo hi (some v) h = ground arith

between-min :
    (lo hi old : ℕ) (o : Option Text)
    → given o (λ v. between lo hi (number v)) ≡ true
    → min (number_or o old) hi ≡ number_or o (min old hi)
between-min lo hi old none h = refl
between-min lo hi old (some v) h = ground arith

second_true : (a b : Bool) → (a && b) ≡ true → b ≡ true
second_true a b h = ground arith

first_true : (a b : Bool) → (a && b) ≡ true → a ≡ true
first_true a b h = ground arith

numbers_accepted : (m : SettingsMap) → accepts m ≡ true → accepts_numbers m ≡ true
unfolding accepts
numbers_accepted m h = second_true (accepts_texts m) (accepts_numbers m) h

interval_in_force :
    (o old : Option Text) → int_setting 5 30 (or_old o old) ≡ interval_or o (int_setting 5 30 old)
unfolding int_setting
interval_in_force none old = refl
interval_in_force (some v) old = elim (Option-cases (number v)) [
  | inl e ↦ rw e refl
  | inr (n, e) ↦ rw e refl
]

-- An accepted request puts the number of parallel encodes, the interval of reconciliation and the three
-- numbers of the log into force as they were written: none of them is replaced by a default or a limit
-- when the settings are loaded. The interval of the worker, which the handler does not test, is in force
-- as it was written if it is at least 5, and is 30 otherwise. A number that the request does not have
-- stays.
pub put_settings-InForce :
    (m old : SettingsMap)
    → accepts m ≡ true
    → InForce m (load_app_settings old) (load_app_settings (put_settings m old).1)
unfolding load_app_settings normalized text_eq
put_settings-InForce m old h =
    let sized = numbers_accepted m h in
    let aged = second_true _ _ sized in
    let backed = second_true _ _ aged in
    let rest = second_true _ _ backed in
    record {
      worker =
          ap (int_setting 5 30) (put_settings-key m old (codes "worker_interval_seconds") h)
          ∙ interval_in_force (m (codes "worker_interval_seconds"))
              (old (codes "worker_interval_seconds"));
      parallel =
          ap (λ o. min (int_setting 1 1 o) 16)
            (put_settings-key m old (codes "max_parallel_encodes") h)
          ∙ ap (λ n. min n 16)
              (from_in_force 1 1 (m (codes "max_parallel_encodes"))
                (old (codes "max_parallel_encodes"))
                (between-from 1 16 (m (codes "max_parallel_encodes")) (first_true _ _ rest)))
          ∙ between-min 1 16 _ (m (codes "max_parallel_encodes")) (first_true _ _ rest);
      reconcile =
          ap (int_setting 60 300) (put_settings-key m old (codes "reconcile_interval_seconds") h)
          ∙ from_in_force 60 300 (m (codes "reconcile_interval_seconds"))
              (old (codes "reconcile_interval_seconds"))
              (between-from 60 86400 (m (codes "reconcile_interval_seconds"))
                (second_true _ _ rest));
      log_size =
          ap (int_setting 1 50) (put_settings-key m old (codes "log_max_size_mb") h)
          ∙ from_in_force 1 50 (m (codes "log_max_size_mb")) (old (codes "log_max_size_mb"))
              (first_true _ _ sized);
      log_age =
          ap (int_setting 0 30) (put_settings-key m old (codes "log_max_age_days") h)
          ∙ from_in_force 0 30 (m (codes "log_max_age_days")) (old (codes "log_max_age_days"))
              (first_true _ _ aged);
      log_backups =
          ap (int_setting 0 5) (put_settings-key m old (codes "log_max_backups") h)
          ∙ from_in_force 0 5 (m (codes "log_max_backups")) (old (codes "log_max_backups"))
              (first_true _ _ backed);
    }
