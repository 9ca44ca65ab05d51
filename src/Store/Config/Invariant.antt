-- ===== src/Store/Config/Invariant.antt =====
-- internal/store/queries.go: what the statements keep of the tables of the configuration.
use recodarr.Prelude.{
  ℕ, zero, suc, ◌+◌, ◌-◌, ◌*◌, ◌/◌, ◌%◌, ◌≤◌, ◌<◌, ◌≡◌, ◌≢◌, refl, sym, ap, ◌∙◌, Bool, true, false,
  not, ◌&&◌, ◌||◌, Text, codes, text_eq, List, [], ◌∷◌, ◌++◌, Option, none, some, length, take,
  drop, keep, any_of, find_first, count_of, All, ltb, leb, ◌==◌, if◌then◌else◌, arith, Bool-cases,
  Option-cases, inl, inr, ◌⊎◌,
}
use recodarr.Store.Rows.{ArrInstanceRow, QbitInstanceRow, ProfileRow, TagMappingRow}
use recodarr.Store.Config.{
  Table, Config, is_arr_kind, is_mapping_kind, profile_is, same_tag, map_where, append_row,
  create_arr_instance, update_arr_instance, delete_arr_instance, upsert_qbit_instance,
  delete_qbit_instance, upsert_profile, delete_profile, create_tag_mapping, delete_tag_mapping,
}
use recodarr.Store.Config.Tables.{
  Distinct, Distinct-keep, Distinct-append, All-map_where, Distinct-map_where, any_of-map_where,
  any_of-append, All_not_any,
}
pub mod Instances
pub mod Profiles
pub mod Mappings
pub mod Kept

abbrev pub same_name : ProfileRow → ProfileRow → Bool
same_name p q = text_eq p.name q.name

abbrev pub same_arr_id : ArrInstanceRow → ArrInstanceRow → Bool
same_arr_id a b = a.id == b.id

abbrev pub same_qbit_id : QbitInstanceRow → QbitInstanceRow → Bool
same_qbit_id a b = a.id == b.id

abbrev pub same_profile_id : ProfileRow → ProfileRow → Bool
same_profile_id a b = a.id == b.id

abbrev pub same_mapping_id : TagMappingRow → TagMappingRow → Bool
same_mapping_id a b = a.id == b.id

-- The instances: their ids are distinct and were given out, and their kinds are known.
pub record IsArrTable (t : Table ArrInstanceRow) : Type 0 where
  pub below : All (λ r. r.id < t.next_id) t.rows
  pub ids : Distinct same_arr_id t.rows
  pub kinds : All (λ r. is_arr_kind r.kind ≡ true) t.rows

-- The instances of qBittorrent: their ids are distinct and were given out.
pub record IsQbitTable (t : Table QbitInstanceRow) : Type 0 where
  pub below : All (λ r. r.id < t.next_id) t.rows
  pub ids : Distinct same_qbit_id t.rows

-- The profiles: no two have the same id or the same name.
pub record IsProfileTable (t : Table ProfileRow) : Type 0 where
  pub below : All (λ r. r.id < t.next_id) t.rows
  pub ids : Distinct same_profile_id t.rows
  pub names : Distinct same_name t.rows

-- The mappings: no two are of the same tag, and each leads to a profile.
pub record IsMappingTable (profiles : List ProfileRow) (t : Table TagMappingRow) : Type 0 where
  pub below : All (λ r. r.id < t.next_id) t.rows
  pub ids : Distinct same_mapping_id t.rows
  pub tags : Distinct same_tag t.rows
  pub kinds : All (λ r. is_mapping_kind r.arr_kind ≡ true) t.rows
  pub leads : All (λ r. any_of (profile_is r.profile_id) profiles ≡ true) t.rows

pub record IsConsistent (c : Config) : Type 0 where
  pub arr : IsArrTable c.arr
  pub qbit : IsQbitTable c.qbit
  pub profiles : IsProfileTable c.profiles
  pub mappings : IsMappingTable c.profiles.rows c.mappings
