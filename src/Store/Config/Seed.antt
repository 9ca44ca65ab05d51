-- ===== src/Store/Config/Seed.antt =====
-- internal/store/seed.go: the profiles that an empty database gets.
use recodarr.Prelude.{String, ℕ, true, false, codes, List, [], ◌∷◌, Option, none, some}
use recodarr.Store.Rows.{ProfileRow}
use recodarr.Store.Config.{Config, upsert_profile}

-- A default profile: its name, encoder, preset, tune, profile, quality, audio bit rate and arguments.
default_profile : String → String → String → String → String → ℕ → ℕ → String → ProfileRow
default_profile name encoder preset tune profile quality audio args = record {
  id = 0;
  name = codes name;
  encoder = codes encoder;
  encoder_preset = codes preset;
  encoder_profile = codes profile;
  encoder_tune = codes tune;
  encoder_level = [];
  rate_control = [];
  quality = quality;
  video_bitrate = 0;
  max_width = 0;
  max_height = 0;
  subtitle_copy = true;
  two_pass = false;
  container_format = codes "mkv";
  extra_args = codes args;
  framerate = [];
  audio_encoder = codes "opus";
  audio_bitrate = audio;
  audio_mixdown = codes "stereo";
  audio_bitrates_by_channels = [];
  skip_codecs = [];
  skip_bitrate_mb_per_hour = 0;
  skip_bitrate_unit = [];
  skip_file_size_mb = 0;
  skip_duration_minutes = 0;
  skip_height_px = 0;
  skip_hdr = false;
  bloat_policy = [];
  bloat_retry_max = 0;
  bloat_retry_step = 0;
  bloat_min_savings_percent = 0;
  deleted_at = none;
}

unfoldable pub default_profiles : List ProfileRow
unfolding default_profile
default_profiles =
    default_profile "Modern anime - x265" "x265_10bit" "slow" "animation" "" 24 96
      "--encopts aq-mode=3:aq-strength=0.8:psy-rd=1.0:psy-rdoq=1.5:deblock=1,1:bframes=8:ref=6:rc-lookahead=60:sao=0"
    ∷ default_profile "Live action — x265" "x265_10bit" "slow" "" "" 23 128
        "--encopts aq-mode=3:aq-strength=1.0:psy-rd=1.5:psy-rdoq=1.0:deblock=-1,-1:bframes=6:ref=4:rc-lookahead=40"
    ∷ default_profile "Modern anime - nvenc" "nvenc_h265_10bit" "slowest" "hq" "main10" 28 96
        "--encopts spatial-aq=1:temporal-aq=1:rc-lookahead=32"
    ∷ default_profile "Live action — nvenc" "nvenc_h265_10bit" "slowest" "hq" "main10" 27 128
        "--encopts spatial-aq=1:temporal-aq=1:rc-lookahead=32"
    ∷ default_profile "Modern anime — qsv (HEVC)" "qsv_h265_10bit" "slower" "" "main10" 32 96
        "--encopts la-depth=40:b-pyramid=1:extbrc=1:mbbrc=1:adaptive-i=1:adaptive-b=1"
    ∷ default_profile "Live action — qsv (HEVC)" "qsv_h265_10bit" "slower" "" "main10" 30 128
        "--encopts la-depth=40:b-pyramid=1:extbrc=1:mbbrc=1:adaptive-i=1:adaptive-b=1"
    ∷ default_profile "Modern anime — qsv (AV1)" "qsv_av1_10bit" "slower" "" "" 34 96
        "--encopts la-depth=40:extbrc=1:adaptive-i=1:adaptive-b=1"
    ∷ default_profile "Live action — qsv (AV1)" "qsv_av1_10bit" "slower" "" "" 32 128
        "--encopts la-depth=40:extbrc=1:adaptive-i=1:adaptive-b=1"
    ∷ default_profile "Modern anime — svt-av1" "svt_av1_10bit" "4" "" "" 32 96
        "--encopts tune=0:film-grain=0:enable-overlays=1"
    ∷ default_profile "Live action — svt-av1" "svt_av1_10bit" "5" "" "" 30 128
        "--encopts tune=1:film-grain=8:enable-overlays=1"
    ∷ []

-- The loop of UpsertProfile; `none` is an error, which ends it.
unfoldable pub upsert_all : List ProfileRow → Config → Option Config
unfolding upsert_profile
upsert_all [] c = some c
upsert_all (p ∷ ps) c =
    let (stored, c') = upsert_profile p c in
    let rest = upsert_all ps c' in elim stored [ none ↦ none | some i ↦ rest ]

-- The profiles that were deleted count too.
unfoldable pub seed_default_profiles : Config → Option Config
unfolding upsert_all default_profiles
seed_default_profiles c = elim c.profiles.rows [
  | [] ↦ upsert_all default_profiles c
  | (p ∷ ps) ↦ some c
]
