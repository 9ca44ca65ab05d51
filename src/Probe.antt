-- ===== src/Probe.antt =====
-- internal/probe/probe.go: what ffprobe says of a file. A duration is held in microseconds, the unit
-- in which ffprobe prints it.
use mathlib.Core.List.{append_assoc, append-nil}
use recodarr.Prelude.{
  to_lower, ℕ, ◌*◌, ◌/◌, ◌≡◌, sym, Bool, true, false, not, ◌&&◌, ◌||◌, Text, codes, text_eq, List,
  [], ◌∷◌, ◌++◌, Option, none, some, ltb, leb, ◌==◌, if◌then◌else◌, arith,
}

pub record Probe : Type 0 where
  pub codec : Text
  pub height : ℕ
  pub width : ℕ
  pub duration_us : ℕ
  pub bitrate_bps : ℕ
  pub is_hdr : Bool
  pub color_transfer : Text
  pub audio_channels : List ℕ

pub record Stream : Type 0 where
  pub codec_type : Text
  pub codec_name : Text
  pub stream_width : ℕ
  pub stream_height : ℕ
  pub transfer : Text
  pub bit_rate : Option ℕ  -- as far as it parses
  pub channels : ℕ

-- The output of ffprobe, with the numbers that parse.
pub record FfprobeOutput : Type 0 where
  pub duration : Option ℕ
  pub format_bit_rate : Option ℕ
  pub format_size : Option ℕ
  pub streams : List Stream

abbrev or_zero : Option ℕ → ℕ
or_zero none = 0
or_zero (some n) = n

abbrev pub is_hdr_transfer : Text → Bool
is_hdr_transfer t = text_eq t (codes "smpte2084") || text_eq t (codes "arib-std-b67")

-- The bit rate of the container, or of its size: 8 bits a byte over the duration.
unfoldable pub container_bitrate : FfprobeOutput → ℕ
container_bitrate raw =
    let b = or_zero raw.format_bit_rate in
    let d = or_zero raw.duration in
    if ltb 0 b
    then b
    else if ltb 0 (or_zero raw.format_size) && ltb 0 d
    then or_zero raw.format_size * 8 * 1000000 / d
    else 0

unfoldable pub read_video : Stream → Probe → Probe
read_video s p = record p {
  codec = to_lower s.codec_name;
  width = s.stream_width;
  height = s.stream_height;
  color_transfer = to_lower s.transfer;
  is_hdr = p.is_hdr || is_hdr_transfer (to_lower s.transfer);
  bitrate_bps = if p.bitrate_bps == 0 then or_zero s.bit_rate else p.bitrate_bps;
}

-- The loop over the streams, with `gotVideo`.
unfoldable pub read_streams : List Stream → Bool → Probe → Probe
unfolding read_video
read_streams [] got_video p = p
read_streams (s ∷ ss) got_video p =
    let audio =
      read_streams ss got_video
        (record p { audio_channels = p.audio_channels ++ s.channels ∷ [] }) in
    let other = read_streams ss got_video p in
    let video = read_streams ss true (read_video s p) in
    if text_eq s.codec_type (codes "audio")
    then audio
    else if not (text_eq s.codec_type (codes "video")) || got_video
    then other
    else video

unfoldable pub read_output : FfprobeOutput → Probe
unfolding read_streams container_bitrate
read_output raw = read_streams raw.streams false (record {
  codec = [];
  height = 0;
  width = 0;
  duration_us = or_zero raw.duration;
  bitrate_bps = container_bitrate raw;
  is_hdr = false;
  color_transfer = [];
  audio_channels = [];
})

-- `0 < MBPerHour() && MBPerHour() <= limit`: the rate is bits / 8 * 3600 / 2^20, which a float64 holds
-- exactly below 2^41 bits per second.
unfoldable pub mb_per_hour_at_most : Probe → ℕ → Bool
mb_per_hour_at_most p limit =
    ltb 0 p.duration_us && ltb 0 p.bitrate_bps && leb (p.bitrate_bps * 3600) (limit * 8 * 1048576)

-- The channels of the audio streams, in their order.
abbrev pub audio_of : List Stream → List ℕ
audio_of [] = []
audio_of (s ∷ ss) =
    if text_eq s.codec_type (codes "audio") then s.channels ∷ audio_of ss else audio_of ss

read_streams-audio :
    (ss : List Stream) (got_video : Bool) (p : Probe)
    → (read_streams ss got_video p).audio_channels ≡ p.audio_channels ++ audio_of ss
unfolding read_streams
read_streams-audio [] g p = sym (append-nil p.audio_channels)
read_streams-audio (s ∷ ss) g p = ground (
  arith,
  read_streams-audio ss g (record p { audio_channels = p.audio_channels ++ s.channels ∷ [] }),
  read_streams-audio ss g p,
  read_streams-audio ss true (read_video s p),
  append_assoc p.audio_channels (s.channels ∷ []) (audio_of ss),
)

-- The probe has the audio channels of the streams in their order.
pub read_output-audio :
    (raw : FfprobeOutput) → (read_output raw).audio_channels ≡ audio_of raw.streams
unfolding read_output
read_output-audio raw = read_streams-audio raw.streams false _
