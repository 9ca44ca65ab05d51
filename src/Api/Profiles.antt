-- ===== src/Api/Profiles.antt =====
-- internal/api/admin.go: the handlers of the profiles. The map of the bit rates by channels is a list
-- of pairs; `encode` is json.Marshal of it, and `decode` json.Unmarshal.
use recodarr.Prelude.{
  trim_space, to_lower, map, ℕ, Bool, true, false, ◌||◌, Text, codes, text_eq, List, [], ◌∷◌,
  Option, none, some, keep, ltb, if◌then◌else◌,
}
use recodarr.Api.{keep, true, ◌∷◌, ltb, false, some, codes, Option, Text, Bool, ℕ, List, Answer}
use recodarr.Prelude.Paths.{is_empty}
use recodarr.Prelude.Int.{ℤ, pos, negsuc}
use recodarr.Store.Rows.{ProfileRow}
use recodarr.Store.Config.{Config, list_profiles, upsert_profile, delete_profile}

unfoldable pub normalize_bloat_policy : Text → Text
normalize_bloat_policy s =
    if text_eq s (codes "keep_original") || text_eq s (codes "retry_higher_crf")
    then s
    else codes "off"

-- The bounds are never negative.
unfoldable pub clamp : ℤ → ℕ → ℕ → ℕ
clamp (negsuc n) lo hi = lo
clamp (pos n) lo hi = if ltb n lo then lo else if ltb hi n then hi else n

abbrev pub Bitrates : Type 0
Bitrates = List (Text × ℤ)

-- The fields that the handler stores as they are stand in `row`.
pub record ProfileDto : Type 0 where
  pub row : ProfileRow
  pub audio_bitrates : Bitrates
  pub bloat_retry_max : ℤ
  pub bloat_retry_step : ℤ
  pub bloat_min_savings_percent : ℤ
  pub deleted : Bool

abbrev positive_rate : Text × ℤ → Bool
positive_rate (k, negsuc n) = false
positive_rate (k, pos n) = ltb 0 n

abbrev pub Encode : Type 0
Encode = Bitrates → Text

unfoldable pub bitrates_json : Encode → Bitrates → Text
bitrates_json encode [] = codes "{}"
bitrates_json encode (r ∷ rs) = encode (keep positive_rate (r ∷ rs))

-- The row that the handler passes to UpsertProfile.
unfoldable pub profile_of_dto : Encode → ProfileDto → ProfileRow
unfolding normalize_bloat_policy clamp bitrates_json
profile_of_dto encode d = record d.row {
  rate_control = to_lower (trim_space d.row.rate_control);
  skip_codecs = to_lower (trim_space d.row.skip_codecs);
  audio_bitrates_by_channels = bitrates_json encode d.audio_bitrates;
  bloat_policy = normalize_bloat_policy d.row.bloat_policy;
  bloat_retry_max = clamp d.bloat_retry_max 0 10;
  bloat_retry_step = clamp d.bloat_retry_step 1 20;
  bloat_min_savings_percent = clamp d.bloat_min_savings_percent 0 50;
}

abbrev is_set : Option ℕ → Bool
is_set none = false
is_set (some t) = true

unfoldable pub profile_row_to_dto : (Text → Bitrates) → ProfileRow → ProfileDto
profile_row_to_dto decode r = record {
  row = r;
  audio_bitrates =
      if is_empty r.audio_bitrates_by_channels || text_eq r.audio_bitrates_by_channels (codes "{}")
      then []
      else decode r.audio_bitrates_by_channels;
  bloat_retry_max = pos r.bloat_retry_max;
  bloat_retry_step = pos r.bloat_retry_step;
  bloat_min_savings_percent = pos r.bloat_min_savings_percent;
  deleted = is_set r.deleted_at;
}

unfoldable pub list_profiles_handler : (Text → Bitrates) → Bool → Config → Answer (List ProfileDto)
unfolding list_profiles profile_row_to_dto
list_profiles_handler decode include_deleted c =
    (200, some (map (profile_row_to_dto decode) (list_profiles include_deleted c)))

-- The answer has the values of the request, not those that are stored, and the id.
abbrev pub upserted : ProfileDto → Option ℕ × Config → Answer ProfileDto × Config
upserted d (none, c) = ((500, none), c)
upserted d (some i, c) = ((200, some (record d { row = record d.row { id = i } })), c)

unfoldable pub upsert_profile_handler :
    Encode → Option ProfileDto → Config → Answer ProfileDto × Config
unfolding profile_of_dto upsert_profile
upsert_profile_handler encode none c = ((400, none), c)
upsert_profile_handler encode (some d) c = upserted d (upsert_profile (profile_of_dto encode d) c)

unfoldable pub delete_profile_handler : ℕ → Option ℕ → Config → ℕ × Config
unfolding delete_profile
delete_profile_handler now none c = (400, c)
delete_profile_handler now (some i) c = (204, delete_profile now i c)
