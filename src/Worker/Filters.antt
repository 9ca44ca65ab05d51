-- ===== src/Worker/Filters.antt =====
-- internal/job/filters.go: whether the filters of a profile skip a job. The probe, `none` where
-- ffprobe fails, is an argument; a reason stands for the text that is made of it.
use recodarr.Prelude.Paths.{split_by, is_empty}
use recodarr.Probe.{mb_per_hour_at_most, Probe}
use recodarr.Store.Rows.{JobRow, ProfileRow}
use recodarr.Prelude.{
  trim_space, equal_fold, ℕ, ◌/◌, ◌≡◌, Bool, true, false, not, ◌&&◌, ◌||◌, Text, codes, text_eq,
  Option, none, some, any_of, ltb, leb, if◌then◌else◌, arith,
}

pub data SkipReason : Type 0 where
  too_small bitrate_kbps short_duration low_height : ℕ → ℕ → SkipReason
  listed_codec : Text → SkipReason
  low_mb_per_hour : ℕ → SkipReason
  hdr : Text → SkipReason

unfoldable pub filters_configured : ProfileRow → Bool
filters_configured p =
    not (is_empty p.skip_codecs)
    || ltb 0 p.skip_bitrate_mb_per_hour
    || ltb 0 p.skip_file_size_mb
    || ltb 0 p.skip_duration_minutes
    || ltb 0 p.skip_height_px
    || p.skip_hdr

abbrev pub needs_probe : ProfileRow → Bool
needs_probe p =
    not (is_empty p.skip_codecs)
    || ltb 0 p.skip_bitrate_mb_per_hour
    || ltb 0 p.skip_duration_minutes
    || ltb 0 p.skip_height_px
    || p.skip_hdr

abbrev pub mebibytes : ℕ → ℕ
mebibytes n = n / 1048576

-- Whether an entry of the comma-separated list is the codec.
unfoldable pub codec_listed : Text → Text → Bool
codec_listed listed codec = any_of (λ c. equal_fold (trim_space c) codec) (split_by b',' listed)

-- The tests of each filter.
abbrev pub size_hit : ProfileRow → JobRow → Bool
size_hit p j =
    ltb 0 p.skip_file_size_mb
    && ltb 0 j.file_size
    && leb (mebibytes j.file_size) p.skip_file_size_mb

abbrev pub codec_hit : ProfileRow → Probe → Bool
codec_hit p pr =
    not (is_empty p.skip_codecs) && not (is_empty pr.codec) && codec_listed p.skip_codecs pr.codec

abbrev pub is_kbps : ProfileRow → Bool
is_kbps p = text_eq p.skip_bitrate_unit (codes "kbps")

abbrev pub kbps_hit : ProfileRow → Probe → Bool
kbps_hit p pr = ltb 0 pr.bitrate_bps && leb (pr.bitrate_bps / 1000) p.skip_bitrate_mb_per_hour

abbrev pub minutes : Probe → ℕ
minutes pr = pr.duration_us / 60000000

abbrev pub duration_hit : ProfileRow → Probe → Bool
duration_hit p pr =
    ltb 0 p.skip_duration_minutes
    && ltb 0 pr.duration_us
    && leb (minutes pr) p.skip_duration_minutes

abbrev pub height_hit : ProfileRow → Probe → Bool
height_hit p pr = ltb 0 p.skip_height_px && ltb 0 pr.height && leb pr.height p.skip_height_px

-- The tests that follow a probe, in the order of the code.
unfoldable pub duration_on : ProfileRow → Probe → Option SkipReason
duration_on p pr =
    if duration_hit p pr
    then some (short_duration (minutes pr) p.skip_duration_minutes)
    else if height_hit p pr
    then some (low_height pr.height p.skip_height_px)
    else if p.skip_hdr && pr.is_hdr
    then some (hdr pr.color_transfer)
    else none

unfoldable pub probed : ProfileRow → Probe → Option SkipReason
unfolding duration_on
probed p pr =
    if codec_hit p pr
    then some (listed_codec pr.codec)
    else if ltb 0 p.skip_bitrate_mb_per_hour
    then (if is_kbps p
        then (if kbps_hit p pr
            then some (bitrate_kbps (pr.bitrate_bps / 1000) p.skip_bitrate_mb_per_hour)
            else duration_on p pr)
        else if mb_per_hour_at_most pr p.skip_bitrate_mb_per_hour
        then some (low_mb_per_hour p.skip_bitrate_mb_per_hour)
        else duration_on p pr)
    else duration_on p pr

unfoldable pub evaluate_filters : Option Probe → ProfileRow → JobRow → Option SkipReason
unfolding filters_configured
evaluate_filters probe p j =
    if not (filters_configured p)
    then none
    else if size_hit p j
    then some (too_small (mebibytes j.file_size) p.skip_file_size_mb)
    else if not (needs_probe p)
    then none
    else elim probe [ none ↦ none | some pr ↦ probed p pr ]

abbrev pub is_skip : Option SkipReason → Bool
is_skip none = false
is_skip (some r) = true

-- Some filter that looks at the probe applies.
abbrev pub probe_hit : ProfileRow → Probe → Bool
probe_hit p pr =
    codec_hit p pr
    || (ltb 0 p.skip_bitrate_mb_per_hour
        && (if is_kbps p then kbps_hit p pr else mb_per_hour_at_most pr p.skip_bitrate_mb_per_hour))
    || duration_hit p pr
    || height_hit p pr
    || (p.skip_hdr && pr.is_hdr)

probed_iff : (p : ProfileRow) (pr : Probe) → is_skip (probed p pr) ≡ probe_hit p pr
unfolding probed
probed_iff p pr = ground arith

-- A job is skipped exactly if its size or its probe meets a filter that is set: the early returns
-- change no verdict, and a probe that fails meets no filter.
pub evaluate_filters_iff :
    (probe : Option Probe) (p : ProfileRow) (j : JobRow)
    → is_skip (evaluate_filters probe p j)
      ≡ (size_hit p j || elim probe [ none ↦ false | some pr ↦ probe_hit p pr ])
unfolding evaluate_filters
evaluate_filters_iff none p j = ground arith
evaluate_filters_iff (some pr) p j = ground (arith, probed_iff p pr)
