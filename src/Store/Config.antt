-- ===== src/Store/Config.antt =====
-- internal/store/queries.go: the tables of the services, the profiles and the tag mappings, with the
-- constraints of migrations/001_init.sql. A statement gives the tables after it; `none` stands for a
-- constraint that it breaks, which leaves the tables as they are.
use recodarr.Prelude.{
  suc, false, not, [], true, map, ◌&&◌, ◌||◌, find_first, keep, text_eq, ◌++◌, some, ◌∷◌, any_of,
  none, ◌==◌, ◌++◌, ◌==◌, ◌&&◌, ◌||◌, Bool, List, ℕ, codes, if◌then◌else◌, Option, Text, to_lower,
}
use recodarr.Prelude.Order.{text_ltb, sort_by}
use recodarr.Prelude.Paths.{is_empty}
use recodarr.Store.Rows.{ArrInstanceRow, QbitInstanceRow, ProfileRow, TagMappingRow}
pub mod Tables
pub mod Seed
pub mod Ops
pub mod Invariant
pub mod Deletion

pub record Table (A : Type 0) : Type 0 where
  pub rows : List A
  pub next_id : ℕ

pub record Config : Type 0 where
  pub arr : Table ArrInstanceRow
  pub qbit : Table QbitInstanceRow
  pub profiles : Table ProfileRow
  pub mappings : Table TagMappingRow

module _ {A : Type 0} where
  -- `UPDATE … SET f WHERE p`
  unfoldable pub map_where : (A → Bool) → (A → A) → List A → List A
  map_where p f [] = []
  map_where p f (x ∷ xs) = (if p x then f x else x) ∷ map_where p f xs

  -- `INSERT INTO …`: the row gets the next id, and stands last by `ORDER BY id`.
  unfoldable pub append_row : (ℕ → A) → Table A → Table A
  append_row f t = record { rows = t.rows ++ f t.next_id ∷ []; next_id = suc t.next_id }

  abbrev pub with_rows : List A → Table A → Table A
  with_rows xs t = record t { rows = xs }

  abbrev pub is_live : (A → Option ℕ) → A → Bool
  is_live deleted x = elim (deleted x) [ none ↦ true | some t ↦ false ]

  abbrev pub unless_deleted : Bool → (A → Option ℕ) → List A → List A
  unless_deleted true deleted xs = xs
  unless_deleted false deleted xs = keep (is_live deleted) xs

-- `CHECK (kind IN ('sonarr','radarr'))`
abbrev pub is_arr_kind : Text → Bool
is_arr_kind k = text_eq k (codes "sonarr") || text_eq k (codes "radarr")

abbrev pub is_mapping_kind : Text → Bool
is_mapping_kind k = is_arr_kind k || text_eq k (codes "both")

abbrev pub arr_is : ℕ → ArrInstanceRow → Bool
arr_is i r = r.id == i

abbrev pub profile_is : ℕ → ProfileRow → Bool
profile_is i r = r.id == i

abbrev pub qbit_is : ℕ → QbitInstanceRow → Bool
qbit_is i r = r.id == i

unfoldable pub list_arr_instances : Bool → Config → List ArrInstanceRow
list_arr_instances include_deleted c = unless_deleted include_deleted (λ r. r.deleted_at) c.arr.rows

unfoldable pub get_arr_instance : ℕ → Config → Option ArrInstanceRow
get_arr_instance i c = find_first (arr_is i) c.arr.rows

unfoldable pub create_arr_instance : ArrInstanceRow → Config → Option ℕ × Config
unfolding append_row
create_arr_instance r c =
    if is_arr_kind r.kind
    then (
      some c.arr.next_id,
      record c { arr = append_row (λ i. record r { id = i; deleted_at = none }) c.arr },
    )
    else (none, c)

-- An empty key of the request keeps the key of the row.
abbrev pub new_secret : Text → Text → Text
new_secret given old = if is_empty given then old else given

unfoldable pub update_arr_row : ArrInstanceRow → ArrInstanceRow → ArrInstanceRow
update_arr_row r old = record r {
  api_key = new_secret r.api_key old.api_key;
  id = old.id;
  deleted_at = old.deleted_at;
}

-- The check of the kind applies if there is a row.
unfoldable pub update_arr_instance : ArrInstanceRow → Config → Bool × Config
unfolding map_where update_arr_row
update_arr_instance r c =
    if is_arr_kind r.kind || not (any_of (arr_is r.id) c.arr.rows)
    then (
      true,
      record c { arr = with_rows (map_where (arr_is r.id) (update_arr_row r) c.arr.rows) c.arr },
    )
    else (false, c)

abbrev pub first_time : ℕ → Option ℕ → Option ℕ
first_time now none = some now
first_time now (some t) = some t

-- `deleted_at = CURRENT_TIMESTAMP WHERE id=? AND deleted_at IS NULL`
unfoldable pub delete_arr_instance : ℕ → ℕ → Config → Config
unfolding map_where
delete_arr_instance now i c = record c {
  arr =
      with_rows
        (map_where (arr_is i) (λ r. record r { deleted_at = first_time now r.deleted_at })
          c.arr.rows)
        c.arr;
}

abbrev pub list_qbit_instances : Config → List QbitInstanceRow
list_qbit_instances c = c.qbit.rows

unfoldable pub get_qbit_instance : ℕ → Config → Option QbitInstanceRow
get_qbit_instance i c = find_first (qbit_is i) c.qbit.rows

abbrev first_row : List QbitInstanceRow → Option QbitInstanceRow
first_row [] = none
first_row (r ∷ rs) = some r

unfoldable pub first_qbit_instance : Config → Option QbitInstanceRow
first_qbit_instance c = first_row c.qbit.rows

unfoldable pub update_qbit_row : QbitInstanceRow → QbitInstanceRow → QbitInstanceRow
update_qbit_row r old = record r { id = old.id; password = new_secret r.password old.password }

unfoldable pub upsert_qbit_instance : QbitInstanceRow → Config → ℕ × Config
unfolding append_row map_where update_qbit_row
upsert_qbit_instance r c =
    if r.id == 0
    then (c.qbit.next_id, record c { qbit = append_row (λ i. record r { id = i }) c.qbit })
    else (
      r.id,
      record c {
        qbit = with_rows (map_where (qbit_is r.id) (update_qbit_row r) c.qbit.rows) c.qbit;
      },
    )

unfoldable pub delete_qbit_instance : ℕ → Config → Config
delete_qbit_instance i c = record c {
  qbit = with_rows (keep (λ r. not (qbit_is i r)) c.qbit.rows) c.qbit;
}

-- What scanProfile does to a row that is read.
unfoldable pub scan_profile : ProfileRow → ProfileRow
scan_profile r =
    if is_empty r.skip_bitrate_unit then record r { skip_bitrate_unit = codes "mb_per_hour" } else r

unfoldable pub list_profiles : Bool → Config → List ProfileRow
unfolding scan_profile
list_profiles include_deleted c =
    map scan_profile (unless_deleted include_deleted (λ r. r.deleted_at) c.profiles.rows)

abbrev pub map_found : (ProfileRow → ProfileRow) → Option ProfileRow → Option ProfileRow
map_found f none = none
map_found f (some r) = some (f r)

-- A profile that was deleted is still found.
unfoldable pub get_profile : ℕ → Config → Option ProfileRow
unfolding scan_profile
get_profile i c = map_found scan_profile (find_first (profile_is i) c.profiles.rows)

abbrev or_text : Text → Text → Text
or_text d s = if is_empty s then d else s

-- The defaults that UpsertProfile fills in.
unfoldable pub with_defaults : ProfileRow → ProfileRow
with_defaults r = record r {
  rate_control = or_text (codes "crf") r.rate_control;
  skip_bitrate_unit =
      if text_eq r.skip_bitrate_unit (codes "kbps") then codes "kbps" else codes "mb_per_hour";
  audio_bitrates_by_channels = or_text (codes "{}") r.audio_bitrates_by_channels;
}

-- `UNIQUE` of the name: another row has it, deleted or not.
abbrev pub name_taken : ℕ → Text → List ProfileRow → Bool
name_taken i name rows = any_of (λ p. text_eq p.name name && not (p.id == i)) rows

unfoldable pub update_profile_row : ProfileRow → ProfileRow → ProfileRow
update_profile_row r old = record r { id = old.id; deleted_at = old.deleted_at }

unfoldable pub upsert_profile : ProfileRow → Config → Option ℕ × Config
unfolding with_defaults append_row map_where update_profile_row
upsert_profile r c =
    let d = with_defaults r in
    if r.id == 0
    then (if any_of (λ p. text_eq p.name r.name) c.profiles.rows then (none, c) else (
      some c.profiles.next_id,
      record c { profiles = append_row (λ i. record d { id = i; deleted_at = none }) c.profiles },
    ))
    else if any_of (profile_is r.id) c.profiles.rows && name_taken r.id r.name c.profiles.rows
    then (none, c)
    else (
      some r.id,
      record c {
        profiles =
            with_rows (map_where (profile_is r.id) (update_profile_row d) c.profiles.rows)
              c.profiles;
      },
    )

unfoldable pub mark_deleted : ℕ → ProfileRow → ProfileRow
mark_deleted now r = record r { deleted_at = first_time now r.deleted_at }

-- The transaction of DeleteProfile.
unfoldable pub delete_profile : ℕ → ℕ → Config → Config
unfolding map_where mark_deleted
delete_profile now i c = record c {
  mappings = with_rows (keep (λ m. not (m.profile_id == i)) c.mappings.rows) c.mappings;
  profiles = with_rows (map_where (profile_is i) (mark_deleted now) c.profiles.rows) c.profiles;
}

-- `ORDER BY arr_kind,tag_label`
abbrev mapping_before : TagMappingRow → TagMappingRow → Bool
mapping_before a b =
    text_ltb a.arr_kind b.arr_kind
    || text_eq a.arr_kind b.arr_kind && text_ltb a.tag_label b.tag_label

unfoldable pub list_tag_mappings : Config → List TagMappingRow
unfolding sort_by
list_tag_mappings c = sort_by mapping_before c.mappings.rows

unfoldable pub list_tag_mappings_by_kind : Text → Config → List TagMappingRow
list_tag_mappings_by_kind kind c =
    keep (λ m. text_eq m.arr_kind kind || text_eq m.arr_kind (codes "both")) c.mappings.rows

-- `UNIQUE(arr_kind, tag_id)`
abbrev pub same_tag : TagMappingRow → TagMappingRow → Bool
same_tag a b = text_eq a.arr_kind b.arr_kind && a.tag_id == b.tag_id

unfoldable pub create_tag_mapping : TagMappingRow → Config → Option ℕ × Config
unfolding append_row
create_tag_mapping r c =
    if is_mapping_kind r.arr_kind
      && not (any_of (same_tag r) c.mappings.rows)
      && any_of (profile_is r.profile_id) c.profiles.rows
    then (
      some c.mappings.next_id,
      record c { mappings = append_row (λ i. record r { id = i }) c.mappings },
    )
    else (none, c)

unfoldable pub delete_tag_mapping : ℕ → Config → Config
delete_tag_mapping i c = record c {
  mappings = with_rows (keep (λ m. not (m.id == i)) c.mappings.rows) c.mappings;
}
