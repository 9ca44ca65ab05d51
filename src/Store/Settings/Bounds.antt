-- ===== src/Store/Settings/Bounds.antt =====
-- internal/store/appsettings.go: the ranges of the settings.
use recodarr.Prelude.{
  if_false, if_true, subst, trim_space, ℕ, ◌≤◌, ◌≡◌, refl, sym, true, false, Text, codes, text_eq,
  [], ◌∷◌, Option, none, some, arith, Bool-cases, inl, inr,
}
use recodarr.Store.Settings.{
  suffix_or_default, to_upper, is_empty, AppSettings, SettingsMap, load_app_settings, int_setting,
  level_setting, is_level,
}

-- What the rest of the program relies on.
pub record IsSane (s : AppSettings) : Type 0 where
  pub worker : 5 ≤ s.worker_interval_seconds
  pub reconcile : 60 ≤ s.reconcile_interval_seconds
  pub parallel : (1 ≤ s.max_parallel_encodes) × (s.max_parallel_encodes ≤ 16)
  pub size : 1 ≤ s.log_max_size_mb
  pub level : is_level s.log_app_level ≡ true
  pub suffix : is_empty s.output_suffix ≡ false

int_setting-least : (lo d : ℕ) (o : Option Text) → lo ≤ d → lo ≤ int_setting lo d o
unfolding int_setting
int_setting-least lo d none h = h
int_setting-least lo d (some v) h = ground arith

level_setting-level : (o : Option Text) → is_level (level_setting o) ≡ true
unfolding level_setting text_eq
level_setting-level none = refl
level_setting-level (some v) = elim (Bool-cases (is_level (to_upper (trim_space v)))) [
  | inl e ↦ subst (λ x. is_level x ≡ true) (sym (if_true _ _ e refl)) e
  | inr e ↦
      subst (λ x. is_level x ≡ true) (sym (if_false (is_level (to_upper (trim_space v))) _ e refl))
        refl
]

suffix_or_default_full : (s : Text) → is_empty (suffix_or_default s) ≡ false
suffix_or_default_full [] = refl
suffix_or_default_full (c ∷ s) = refl

-- Whatever the table holds, the settings that are loaded are in their ranges.
pub load_app_settings-IsSane : (m : SettingsMap) → IsSane (load_app_settings m)
unfolding load_app_settings
load_app_settings-IsSane m = record {
  worker = int_setting-least 5 30 _ (omega arith);
  reconcile = int_setting-least 60 300 _ (omega arith);
  parallel = (
    omega (arith, int_setting-least 1 1 (m (codes "max_parallel_encodes")) (omega arith)),
    omega arith,
  );
  size = int_setting-least 1 50 _ (omega arith);
  level = level_setting-level _;
  suffix = suffix_or_default_full _;
}
