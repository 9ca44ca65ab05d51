-- ===== src/Handbrake/Args.antt =====
-- internal/handbrake/handbrake.go: Settings and buildArgs.
use recodarr.Prelude.{
  ℕ, ◌≡◌, Bool, ◌||◌, Text, codes, text_eq, equal_fold, has_prefix, List, [], ◌∷◌, ◌++◌, ◌==◌, ltb,
  if◌then◌else◌,
}
use mathlib.Core.List.{append_assoc}
use recodarr.Prelude.Paths.{is_empty}
use recodarr.Prelude.Numbers.{itoa}
use recodarr.Handbrake.ShellSplit.{split_shell_args}
use recodarr.Handbrake.Quoting.{quote_args, split_shell_args-quote_args}

pub record Settings : Type 0 where
  pub encoder : Text
  pub encoder_preset : Text
  pub encoder_profile : Text
  pub encoder_tune : Text
  pub encoder_level : Text
  pub rate_control : Text
  pub quality : ℕ
  pub video_bitrate : ℕ
  pub max_width : ℕ
  pub max_height : ℕ
  pub audio_encoder : Text
  pub audio_bitrate : ℕ
  pub audio_mixdown : Text
  pub audio_bitrates_per_track : List ℕ
  pub subtitle_copy : Bool
  pub two_pass : Bool
  pub container_format : Text
  pub extra_args : Text
  pub framerate : Text
  pub no_commit : Bool

abbrev pub default_text : Text → Text → Text
default_text s d = if is_empty s then d else s

abbrev pub is_abr : Settings → Bool
is_abr s = equal_fold s.rate_control (codes "abr")

-- `append(args, flag, value)` unless the value is empty.
abbrev text_flag : Text → Text → List Text
text_flag flag value = if is_empty value then [] else flag ∷ value ∷ []

-- `append(args, flag, strconv.Itoa(n))` if n is positive.
abbrev number_flag : Text → ℕ → List Text
number_flag flag n = if ltb 0 n then flag ∷ itoa n ∷ [] else []

-- `strings.Join(parts, ",")` of the bit rates
unfoldable pub join_rates : List ℕ → Text
join_rates [] = []
join_rates (n ∷ []) = itoa n
join_rates (n ∷ m ∷ ns) = itoa n ++ b',' ∷ join_rates (m ∷ ns)

unfoldable pub rate_args : Settings → List Text
rate_args s =
    if is_abr s
    then codes "--vb" ∷ itoa s.video_bitrate ∷ []
    else codes "-q" ∷ itoa (if s.quality == 0 then 22 else s.quality) ∷ []

unfoldable pub audio_args : Settings → List Text
unfolding join_rates
audio_args s =
    if is_empty s.audio_encoder
    then []
    else codes "--all-audio"
        ∷ codes "--aencoder"
        ∷ s.audio_encoder
        ∷ (if text_eq s.audio_encoder (codes "copy")
            then []
            else if is_empty s.audio_bitrates_per_track
            then number_flag (codes "--ab") s.audio_bitrate
            else codes "--ab" ∷ join_rates s.audio_bitrates_per_track ∷ [])
      ++ text_flag (codes "--mixdown") s.audio_mixdown

unfoldable pub decoding_args : Text → List Text
decoding_args encoder =
    if has_prefix encoder (codes "nvenc_")
    then codes "--enable-hw-decoding" ∷ codes "nvdec" ∷ []
    else if has_prefix encoder (codes "qsv_")
    then codes "--enable-hw-decoding" ∷ codes "qsv" ∷ []
    else if has_prefix encoder (codes "vce_") || has_prefix encoder (codes "vt_")
    then codes "--enable-hw-decoding" ∷ codes "vaapi" ∷ []
    else []

unfoldable pub build_args : Text → Text → Settings → List Text
unfolding rate_args audio_args decoding_args
build_args input output s =
    let encoder = default_text s.encoder (codes "x265") in
    codes "-e"
      ∷ encoder
      ∷ codes "-f"
      ∷ default_text s.container_format (codes "mkv")
      ∷ codes "-i"
      ∷ input
      ∷ codes "-o"
      ∷ output
      ∷ rate_args s
    ++ text_flag (codes "--encoder-preset") s.encoder_preset
    ++ text_flag (codes "--encoder-profile") s.encoder_profile
    ++ text_flag (codes "--encoder-tune") s.encoder_tune
    ++ text_flag (codes "--encoder-level") s.encoder_level
    ++ number_flag (codes "--maxWidth") s.max_width
    ++ number_flag (codes "--maxHeight") s.max_height
    ++ audio_args s
    ++ (if s.subtitle_copy then codes "--all-subtitles" ∷ [] else [])
    ++ (if s.two_pass then codes "--two-pass" ∷ codes "--turbo" ∷ [] else [])
    ++ decoding_args encoder
    ++ text_flag (codes "-r") s.framerate
    ++ codes "--cfr" ∷ []
    ++ (if is_empty s.extra_args then [] else split_shell_args s.extra_args)

-- Extra arguments that the user quotes come last on the command line, each as it was quoted, after
-- the arguments that the other settings give.
pub build_args-quote_args :
    (input output : Text) (s : Settings) (a : Text) (extra : List Text)
    → build_args input output (record s { extra_args = quote_args (a ∷ extra) })
      ≡ build_args input output (record s { extra_args = [] }) ++ a ∷ extra
unfolding build_args quote_args
build_args-quote_args input output s a extra =
    simp (split_shell_args-quote_args (a ∷ extra), append_assoc)
