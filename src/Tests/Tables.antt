-- ===== src/Tests/Tables.antt =====
-- The theorems on the configuration and its handlers at concrete tables.
use recodarr.Prelude.{
  ◌≡◌, true, false, codes, text_eq, List, [], ◌∷◌, none, some, any_of, All, ◌==◌, if◌then◌else◌,
}
use recodarr.Store.Rows.{ArrInstanceRow, TagMappingRow}
use recodarr.Store.Config.{
  Config, delete_profile, get_profile, list_profiles, list_tag_mappings_by_kind, profile_is,
}
use recodarr.Store.Config.Ops.{create_mapping, upsert, Op, apply, run_ops}
use recodarr.Store.Config.Invariant.{IsConsistent}
use recodarr.Store.Config.Invariant.Kept.{apply-IsConsistent, run_ops-IsConsistent}
use recodarr.Store.Config.Deletion.{delete_profile_effects, IsBuried}
use recodarr.Store.Settings.{SettingsMap}
use recodarr.Api.Instances.{ArrInstanceDto, list_arr, create_arr, update_arr}
use recodarr.Api.Profiles.{ProfileDto, upsert_profile_handler}
use recodarr.Api.Sane.{IsSane, upsert_profile_handler-All}
use recodarr.Api.Secrets.{answers_hide_keys, IsSecret, bodies, get_settings}
use recodarr.Prelude.Int.{pos}
use recodarr.Tests.{sample_profile}

abbrev pub sample_instance : ArrInstanceRow
sample_instance = record {
  id = 1;
  kind = codes "sonarr";
  name = codes "Series";
  url = codes "http://sonarr";
  api_key = codes "key";
  enabled = true;
  deleted_at = none;
}

abbrev pub sample_mapping : TagMappingRow
sample_mapping = record {
  id = 1;
  arr_kind = codes "sonarr";
  tag_id = 4;
  tag_label = codes "encode";
  profile_id = 1;
}

abbrev empty_config : Config
empty_config = record {
  arr = record { rows = []; next_id = 1 };
  qbit = record { rows = []; next_id = 1 };
  profiles = record { rows = []; next_id = 1 };
  mappings = record { rows = []; next_id = 1 };
}

empty_config-IsConsistent : IsConsistent empty_config
empty_config-IsConsistent = record {
  arr = record { below = tt; ids = tt; kinds = tt };
  qbit = record { below = tt; ids = tt };
  profiles = record { below = tt; ids = tt; names = tt };
  mappings = record { below = tt; ids = tt; tags = tt; kinds = tt; leads = tt };
}

abbrev statements : List Op
statements =
    Op.create_arr sample_instance
    ∷ upsert (record sample_profile { id = 0 })
    ∷ create_mapping sample_mapping
    ∷ []

abbrev filled : Config
filled = run_ops statements empty_config

apply-IsConsistent_example : IsConsistent (apply (Op.remove_profile 9 1) filled)
apply-IsConsistent_example =
    apply-IsConsistent (Op.remove_profile 9 1) filled
      (run_ops-IsConsistent statements empty_config empty_config-IsConsistent)

delete_profile_effects_example :
    (any_of
        (λ m. m.profile_id == 1)
        (list_tag_mappings_by_kind (codes "sonarr") (delete_profile 9 1 filled))
      ≡ false)
    × (any_of (profile_is 1) (list_profiles false (delete_profile 9 1 filled)) ≡ false)
    × IsBuried 9 (get_profile 1 filled) (get_profile 1 (delete_profile 9 1 filled))
delete_profile_effects_example = delete_profile_effects 9 1 filled (codes "sonarr")

abbrev one_instance : Config
one_instance = record empty_config { arr = record { rows = sample_instance ∷ []; next_id = 2 } }

abbrev sent : ProfileDto
sent = record {
  row = record sample_profile { id = 0 };
  audio_bitrates = [];
  bloat_retry_max = pos 99;
  bloat_retry_step = pos 0;
  bloat_min_savings_percent = pos 5;
  deleted = false;
}

upsert_profile_handler-All_example :
    All IsSane (upsert_profile_handler (λ m. []) (some sent) empty_config).1.profiles.rows
upsert_profile_handler-All_example =
    upsert_profile_handler-All IsSane (λ r h. h) (λ m. []) (some sent) empty_config tt

abbrev token_set : SettingsMap
token_set k = if text_eq k (codes "agent_token") then some (codes "secret") else none

abbrev sent_instance : ArrInstanceDto
sent_instance = record {
  id = 0;
  kind = codes "radarr";
  name = codes "Films";
  url = codes "http://radarr";
  api_key = codes "key";
  enabled = true;
  has_api_key = false;
  deleted = false;
}

answers_hide_keys_example :
    All (λ d. d.api_key ≡ []) (bodies (list_arr true one_instance).1)
    × IsSecret (create_arr (some sent_instance) one_instance).0.1
    × IsSecret (update_arr (some 1) (some sent_instance) one_instance).0.1
    × (get_settings token_set (codes "agent_token") ≡ none)
answers_hide_keys_example =
    answers_hide_keys true (some 1) (some sent_instance) one_instance token_set
