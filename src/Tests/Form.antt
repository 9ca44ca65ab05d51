-- ===== src/Tests/Form.antt =====
-- The theorems on the settings at concrete inputs.
use recodarr.Prelude.Numbers.{atoi}
use recodarr.Store.Settings.{number}
use recodarr.Store.Settings.{accepts}
use recodarr.Store.Settings.Bounds.{load_app_settings-IsSane, IsSane}
use recodarr.Store.Settings.Accepted.{put_settings-InForce, InForce}
use recodarr.Store.Settings.{put_settings, load_app_settings, SettingsMap}
use recodarr.Prelude.{refl, codes, text_eq, none, some, if◌then◌else◌}

abbrev no_settings : SettingsMap
no_settings k = none

abbrev four_encodes : SettingsMap
four_encodes k = if text_eq k (codes "max_parallel_encodes") then some (codes "4") else none

load_app_settings-IsSane_example : IsSane (load_app_settings four_encodes)
load_app_settings-IsSane_example = load_app_settings-IsSane four_encodes

put_settings-InForce_example :
    InForce four_encodes
      (load_app_settings no_settings)
      (load_app_settings (put_settings four_encodes no_settings).1)
unfolding accepts text_eq number atoi
put_settings-InForce_example = put_settings-InForce four_encodes no_settings refl
