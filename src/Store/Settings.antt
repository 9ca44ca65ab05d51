-- ===== src/Store/Settings.antt =====
-- internal/store/appsettings.go and the handler putSettings of internal/api/admin.go: the settings. The
-- table is a function from a key to its value, if it has one.
use recodarr.Worker.Window.{is_valid_hhmm}
use recodarr.Prelude.Paths.{is_empty}
use recodarr.Prelude.{
  has_prefix, trim_space, min, map, ℕ, zero, suc, ◌+◌, ◌-◌, ◌*◌, ◌/◌, ◌%◌, ◌≤◌, ◌<◌, ◌≡◌, ◌≢◌, refl,
  sym, ap, ◌∙◌, Bool, true, false, not, ◌&&◌, ◌||◌, Text, codes, text_eq, List, [], ◌∷◌, ◌++◌,
  Option, none, some, length, take, drop, keep, any_of, find_first, count_of, All, ltb, leb, ◌==◌,
  if◌then◌else◌, arith, Bool-cases, Option-cases, inl, inr, ◌⊎◌,
}
use recodarr.Prelude.Int.{ℤ, pos, negsuc}
use recodarr.Prelude.Numbers.{atoi}
pub mod Bounds
pub mod Accepted

pub record AppSettings : Type 0 where
  pub worker_interval_seconds : ℕ
  pub reconcile_interval_seconds : ℕ
  pub max_parallel_encodes : ℕ
  pub encoding_window_start : Text
  pub encoding_window_end : Text
  pub encoding_paused : Bool
  pub output_suffix_enabled : Bool
  pub output_suffix : Text
  pub notify_url : Text
  pub notify_on_done : Bool
  pub notify_on_fail : Bool
  pub notify_on_health : Bool
  pub log_app_level : Text
  pub log_rotate_enabled : Bool
  pub log_max_size_mb : ℕ
  pub log_max_age_days : ℕ
  pub log_max_backups : ℕ
  pub log_compress : Bool
  pub agent_enabled : Bool
  pub agent_url : Text
  pub agent_token : Text
  pub agent_fallback_local : Bool

abbrev pub SettingsMap : Type 0
SettingsMap = Text → Option Text

abbrev pub max_parallel_encodes_cap : ℕ
max_parallel_encodes_cap = 16

-- The number that Atoi reads, if it is not negative: every test on it has a bound at or above 0.
abbrev pub non_negative : ℤ × Bool → Option ℕ
non_negative (pos n, true) = some n
non_negative (pos n, false) = none
non_negative (negsuc n, b) = none

unfoldable pub number : Text → Option ℕ
number v = non_negative (atoi v)

abbrev pub at_least : ℕ → ℕ → Option ℕ → ℕ
at_least lo d none = d
at_least lo d (some n) = if leb lo n then n else d

-- A number of the table, if it is at least `lo`; else the default.
unfoldable pub int_setting : ℕ → ℕ → Option Text → ℕ
unfolding number
int_setting lo d none = d
int_setting lo d (some v) = at_least lo d (number v)

abbrev pub bool_setting : Bool → Option Text → Bool
bool_setting d none = d
bool_setting d (some v) = text_eq v (codes "true")

abbrev pub text_setting : Option Text → Text
text_setting none = []
text_setting (some v) = v

-- `strings.ToUpper` of an ASCII byte
abbrev upper : ℕ → ℕ
upper c = if leb 97 c && leb c 122 then c - 32 else c

abbrev pub to_upper : Text → Text
to_upper s = map upper s

abbrev pub is_level : Text → Bool
is_level v =
    text_eq v (codes "DEBUG")
    || text_eq v (codes "INFO")
    || text_eq v (codes "WARN")
    || text_eq v (codes "ERROR")

unfoldable pub level_setting : Option Text → Text
level_setting none = codes "INFO"
level_setting (some v) = let l = to_upper (trim_space v) in if is_level l then l else codes "INFO"

abbrev pub suffix_or_default : Text → Text
suffix_or_default s = if is_empty s then codes "recodarr" else s

unfoldable pub load_app_settings : SettingsMap → AppSettings
unfolding int_setting level_setting
load_app_settings m = record {
  worker_interval_seconds = int_setting 5 30 (m (codes "worker_interval_seconds"));
  reconcile_interval_seconds = int_setting 60 300 (m (codes "reconcile_interval_seconds"));
  max_parallel_encodes =
      min (int_setting 1 1 (m (codes "max_parallel_encodes"))) max_parallel_encodes_cap;
  encoding_window_start = text_setting (m (codes "encoding_window_start"));
  encoding_window_end = text_setting (m (codes "encoding_window_end"));
  encoding_paused = bool_setting false (m (codes "encoding_paused"));
  output_suffix_enabled = bool_setting false (m (codes "output_suffix_enabled"));
  output_suffix = suffix_or_default (trim_space (text_setting (m (codes "output_suffix"))));
  notify_url = text_setting (m (codes "notify_url"));
  notify_on_done = bool_setting true (m (codes "notify_on_done"));
  notify_on_fail = bool_setting true (m (codes "notify_on_fail"));
  notify_on_health = bool_setting true (m (codes "notify_on_health"));
  log_app_level = level_setting (m (codes "log_app_level"));
  log_rotate_enabled = bool_setting true (m (codes "log_rotate_enabled"));
  log_max_size_mb = int_setting 1 50 (m (codes "log_max_size_mb"));
  log_max_age_days = int_setting 0 30 (m (codes "log_max_age_days"));
  log_max_backups = int_setting 0 5 (m (codes "log_max_backups"));
  log_compress = bool_setting false (m (codes "log_compress"));
  agent_enabled = bool_setting false (m (codes "agent_enabled"));
  agent_url = trim_space (text_setting (m (codes "agent_url")));
  agent_token = text_setting (m (codes "agent_token"));
  agent_fallback_local = bool_setting true (m (codes "agent_fallback_local"));
}

-- The tests of putSettings on the values that a request has.
abbrev pub given : Option Text → (Text → Bool) → Bool
given none test = true
given (some v) test = test v

abbrev pub is_bool : Text → Bool
is_bool v = text_eq v (codes "true") || text_eq v (codes "false")

abbrev pub between : ℕ → ℕ → Option ℕ → Bool
between lo hi none = false
between lo hi (some n) = leb lo n && leb n hi

abbrev pub from : ℕ → Option ℕ → Bool
from lo none = false
from lo (some n) = leb lo n

unfoldable pub is_valid_output_suffix : Text → Bool
is_valid_output_suffix s =
    ltb 0 (length s)
    && leb (length s) 32
    && not (
        any_of
          (λ c. not (
            (leb 97 c && leb c 122)
            || (leb 65 c && leb c 90)
            || (leb 48 c && leb c 57)
            || c == b'-'
            || c == b'_'))
          s)

abbrev is_url : Text → Bool
is_url v =
    is_empty v
    || has_prefix (trim_space v) (codes "http://")
    || has_prefix (trim_space v) (codes "https://")

unfoldable pub accepts_texts : SettingsMap → Bool
unfolding is_valid_output_suffix
accepts_texts m =
    given (m (codes "log_app_level")) (λ v. is_level (to_upper (trim_space v)))
    && given (m (codes "log_rotate_enabled")) is_bool
    && given (m (codes "agent_enabled")) is_bool
    && given (m (codes "agent_fallback_local")) is_bool
    && given (m (codes "agent_url")) is_url
    && given (m (codes "encoding_window_start")) (λ v. is_empty v || is_valid_hhmm v)
    && given (m (codes "encoding_window_end")) (λ v. is_empty v || is_valid_hhmm v)
    && given (m (codes "encoding_paused")) is_bool
    && given (m (codes "output_suffix_enabled")) is_bool
    && given (m (codes "output_suffix")) is_valid_output_suffix

abbrev pub accepts_numbers : SettingsMap → Bool
accepts_numbers m =
    given (m (codes "log_max_size_mb")) (λ v. from 1 (number v))
    && (given (m (codes "log_max_age_days")) (λ v. from 0 (number v))
        && (given (m (codes "log_max_backups")) (λ v. from 0 (number v))
            && (given (m (codes "max_parallel_encodes"))
                  (λ v. between 1 max_parallel_encodes_cap (number v))
                && given (m (codes "reconcile_interval_seconds"))
                    (λ v. between 60 86400 (number v)))))

-- No test fails, and the handler does not answer 400; the order of the tests only decides which of
-- several errors is reported.
unfoldable pub accepts : SettingsMap → Bool
unfolding accepts_texts
accepts m = accepts_texts m && accepts_numbers m

-- `TrimRight(u, "/")` of the trimmed address
abbrev trim_slashes : Text → Text
trim_slashes [] = []
trim_slashes (c ∷ s) = elim (trim_slashes s) [
  | [] ↦ if c == b'/' then [] else c ∷ []
  | (d ∷ r) ↦ c ∷ d ∷ r
]

abbrev map_some : (Text → Option Text) → Option Text → Option Text
map_some f none = none
map_some f (some v) = f v

-- The values of a request as they are stored: a blank token is dropped, so the old one stays.
unfoldable pub normalized : SettingsMap → SettingsMap
normalized m k =
    if text_eq k (codes "log_app_level")
    then map_some (λ v. some (to_upper (trim_space v))) (m k)
    else if text_eq k (codes "agent_url")
    then map_some (λ v. some (if is_empty v then v else trim_slashes (trim_space v))) (m k)
    else if text_eq k (codes "agent_token")
    then map_some (λ v. if is_empty (trim_space v) then none else some v) (m k)
    else m k

abbrev pub or_old : {A : Type 0} → Option A → Option A → Option A
or_old none o = o
or_old (some v) o = some v

-- The code, and the table after the SetSetting of every value. The table can be written.
unfoldable pub put_settings : SettingsMap → SettingsMap → ℕ × SettingsMap
unfolding accepts normalized
put_settings m old = if accepts m then (204, λ k. or_old (normalized m k) (old k)) else (400, old)
