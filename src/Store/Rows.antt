-- ===== src/Store/Rows.antt =====
-- internal/store/queries.go: the row types, and the status column of a job. Integers that the
-- program only compares with bounds at or above 0 are natural numbers; times are seconds.
use recodarr.Prelude.{ℕ, Text, codes, Bool, Option}

-- The values of the column `status`; `Status` of internal/job/job.go.
pub data Status : Type 0 where
  waiting_for_seed waiting_for_hardlink ready encoding done failed skipped : Status

pub Status-discrete : Discrete Status
Status-discrete = hlevel

-- How a status is written in the database and in requests.
unfoldable pub status_text : Status → Text
status_text waiting_for_seed = codes "waiting_for_seed"
status_text waiting_for_hardlink = codes "waiting_for_hardlink"
status_text ready = codes "ready"
status_text encoding = codes "encoding"
status_text done = codes "done"
status_text failed = codes "failed"
status_text skipped = codes "skipped"

pub record ArrInstanceRow : Type 0 where
  pub id : ℕ
  pub kind : Text
  pub name : Text
  pub url : Text
  pub api_key : Text
  pub enabled : Bool
  pub deleted_at : Option ℕ

pub record QbitInstanceRow : Type 0 where
  pub id : ℕ
  pub name : Text
  pub url : Text
  pub username : Text
  pub password : Text

pub record ProfileRow : Type 0 where
  pub id : ℕ
  pub name : Text
  pub encoder : Text
  pub encoder_preset : Text
  pub encoder_profile : Text
  pub encoder_tune : Text
  pub encoder_level : Text
  pub rate_control : Text
  pub quality : ℕ
  pub video_bitrate : ℕ
  pub max_width : ℕ
  pub max_height : ℕ
  pub subtitle_copy : Bool
  pub two_pass : Bool
  pub container_format : Text
  pub extra_args : Text
  pub framerate : Text
  pub audio_encoder : Text
  pub audio_bitrate : ℕ
  pub audio_mixdown : Text
  pub audio_bitrates_by_channels : Text
  pub skip_codecs : Text
  pub skip_bitrate_mb_per_hour : ℕ
  pub skip_bitrate_unit : Text
  pub skip_file_size_mb : ℕ
  pub skip_duration_minutes : ℕ
  pub skip_height_px : ℕ
  pub skip_hdr : Bool
  pub bloat_policy : Text
  pub bloat_retry_max : ℕ
  pub bloat_retry_step : ℕ
  pub bloat_min_savings_percent : ℕ
  pub deleted_at : Option ℕ

pub record TagMappingRow : Type 0 where
  pub id : ℕ
  pub arr_kind : Text
  pub tag_id : ℕ
  pub tag_label : Text
  pub profile_id : ℕ

pub record JobRow : Type 0 where
  pub id : ℕ
  pub arr_kind : Text
  pub arr_instance_id : ℕ
  pub arr_item_id : ℕ
  pub arr_parent_id : ℕ
  pub title : Text
  pub file_path : Text
  pub file_size : ℕ
  pub download_id : Text
  pub profile_id : Option ℕ
  pub status : Status
  pub error : Text
  pub encode_log : Text
  pub refresh_error : Text
  pub attempts : ℕ
  pub created_at : ℕ
  pub updated_at : ℕ
  pub started_at : Option ℕ
  pub finished_at : Option ℕ
  pub original_size : Option ℕ
  pub final_size : Option ℕ
  pub tags : Text
  pub source : Text

pub record JobStatsRow : Type 0 where
  pub waiting_for_seed_n : ℕ
  pub waiting_for_hardlink_n : ℕ
  pub ready_n : ℕ
  pub encoding_n : ℕ
  pub done_n : ℕ
  pub failed_n : ℕ
  pub skipped_n : ℕ
  pub total_saved_bytes : ℕ × ℕ
