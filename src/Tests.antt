-- ===== src/Tests.antt =====
-- Sample rows, files and processes for the runs of the theorems at concrete inputs.
use recodarr.Prelude.{
  ℕ, zero, suc, ◌+◌, ◌-◌, ◌*◌, ◌/◌, ◌%◌, ◌≤◌, ◌<◌, ◌≡◌, ◌≢◌, refl, sym, ap, ◌∙◌, Bool, true, false,
  not, ◌&&◌, ◌||◌, Text, codes, text_eq, List, [], ◌∷◌, ◌++◌, Option, none, some, length, take,
  drop, keep, any_of, find_first, count_of, All, ltb, leb, ◌==◌, if◌then◌else◌, arith, Bool-cases,
  Option-cases, inl, inr, ◌⊎◌,
}
use recodarr.Store.Rows.{Status, ready, waiting_for_seed, JobRow, ProfileRow}
use recodarr.Handbrake.Args.{Settings}
use recodarr.Handbrake.Run.{Process}
pub mod Jobs
pub mod Encoder
pub mod Texts
pub mod Form
pub mod Worker
pub mod Agent
pub mod Auth
pub mod Tables
pub mod Remote
pub mod Pages
pub mod Shelf
pub mod Signals

abbrev pub film_path : Text
film_path = codes "/media/film.mkv"

abbrev pub sample_job : JobRow
sample_job = record {
  id = 0;
  arr_kind = codes "radarr";
  arr_instance_id = 1;
  arr_item_id = 7;
  arr_parent_id = 5;
  title = codes "Film";
  file_path = film_path;
  file_size = 1000;
  download_id = [];
  profile_id = some 1;
  status = waiting_for_seed;
  error = [];
  encode_log = [];
  refresh_error = [];
  attempts = 0;
  created_at = 0;
  updated_at = 0;
  started_at = none;
  finished_at = none;
  original_size = none;
  final_size = none;
  tags = [];
  source = codes "webhook";
}

abbrev pub sample_profile : ProfileRow
sample_profile = record {
  id = 1;
  name = codes "default";
  encoder = codes "x265";
  encoder_preset = codes "slow";
  encoder_profile = [];
  encoder_tune = [];
  encoder_level = [];
  rate_control = codes "crf";
  quality = 22;
  video_bitrate = 0;
  max_width = 0;
  max_height = 0;
  subtitle_copy = true;
  two_pass = false;
  container_format = codes "mkv";
  extra_args = [];
  framerate = [];
  audio_encoder = codes "copy";
  audio_bitrate = 0;
  audio_mixdown = [];
  audio_bitrates_by_channels = [];
  skip_codecs = [];
  skip_bitrate_mb_per_hour = 0;
  skip_bitrate_unit = [];
  skip_file_size_mb = 0;
  skip_duration_minutes = 0;
  skip_height_px = 0;
  skip_hdr = false;
  bloat_policy = codes "retry_higher_crf";
  bloat_retry_max = 1;
  bloat_retry_step = 0;
  bloat_min_savings_percent = 10;
  deleted_at = none;
}

abbrev pub sample_settings : Settings
sample_settings = record {
  encoder = codes "x265";
  encoder_preset = codes "slow";
  encoder_profile = [];
  encoder_tune = [];
  encoder_level = [];
  rate_control = codes "crf";
  quality = 22;
  video_bitrate = 0;
  max_width = 0;
  max_height = 0;
  audio_encoder = codes "copy";
  audio_bitrate = 0;
  audio_mixdown = [];
  audio_bitrates_per_track = [];
  subtitle_copy = true;
  two_pass = false;
  container_format = codes "mkv";
  extra_args = [];
  framerate = [];
  no_commit = true;
}

-- The library with one film of 1000 bytes.
abbrev pub library : Text → Option ℕ
library path = if text_eq path film_path then some 1000 else none

-- A process that leaves a result of 600 bytes.
abbrev pub good_process : Process
good_process = record {
  starts = true;
  exits_zero = true;
  output = some 600;
  log_text = codes "libhb: work result = 0";
  renames = true;
}

abbrev pub bad_process : Process
bad_process = record good_process { log_text = codes "libhb: work result = 3" }
