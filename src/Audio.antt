-- ===== src/Audio.antt =====
-- internal/audio/bitrates.go: the bit rates of the audio tracks. encoding/json is not modelled: the
-- decoded profile, or `none` where it does not decode, is an argument.
use recodarr.Prelude.Paths.{is_empty}
use recodarr.Prelude.Numbers.{is_digit}
use recodarr.Prelude.{
  map, ℕ, suc, ◌+◌, ◌-◌, ◌*◌, ◌/◌, ◌<◌, ◌≡◌, refl, ap, ◌&&◌, ◌||◌, Text, codes, text_eq, List, [],
  ◌∷◌, Option, none, some, length, All, ltb, ◌==◌, if◌then◌else◌, arith, Bool-cases, inl, inr,
}

-- DefaultsAAC and DefaultsOpus: kbps by the number of channels.
abbrev pub defaults_aac : ℕ → Option ℕ
defaults_aac ch =
    if ch == 1
    then some 64
    else if ch == 2
    then some 128
    else if ch == 3
    then some 192
    else if ch == 4
    then some 256
    else if ch == 5
    then some 320
    else if ch == 6
    then some 384
    else if ch == 7
    then some 448
    else if ch == 8
    then some 512
    else none

abbrev pub defaults_opus : ℕ → Option ℕ
defaults_opus ch =
    if ch == 1
    then some 48
    else if ch == 2
    then some 96
    else if ch == 3
    then some 144
    else if ch == 4
    then some 192
    else if ch == 5
    then some 224
    else if ch == 6
    then some 256
    else if ch == 7
    then some 320
    else if ch == 8
    then some 384
    else none

unfoldable pub defaults_for_encoder : Text → ℕ → Option ℕ
defaults_for_encoder encoder =
    if text_eq encoder (codes "opus") then defaults_opus else defaults_aac

-- A key of the profile as a number of channels; 0 if it is no number.
unfoldable pub parse_key : ℕ → Text → ℕ
parse_key n [] = n
parse_key n (c ∷ s) = if is_digit c then parse_key (n * 10 + (c - 48)) s else 0

-- `out[n]` of parseMap: of two keys for one number the later one counts.
unfoldable pub configured : List (Text × ℕ) → ℕ → Option ℕ
unfolding parse_key
configured [] ch = none
configured ((k, v) ∷ m) ch =
    let n = parse_key 0 k in
    elim (configured m ch) [ some w ↦ some w | none ↦ if ltb 0 n && n == ch then some v else none ]

unfoldable pub parse_map : Text → Option (List (Text × ℕ)) → ℕ → Option ℕ
unfolding configured
parse_map text decoded ch =
    if is_empty text || text_eq text (codes "{}")
    then none
    else elim decoded [ none ↦ none | some m ↦ configured m ch ]

abbrev or_default : Option ℕ → Option ℕ → ℕ → ℕ
or_default (some v) stereo key = v
or_default none none key = 0
or_default none (some s) key = if ltb 0 s then s / 2 * key else 0

abbrev or_else : Option ℕ → ℕ → ℕ
or_else none d = d
or_else (some v) d = if ltb 0 v then v else d

-- The bit rate of one track.
unfoldable pub track_bitrate : (ℕ → Option ℕ) → (ℕ → Option ℕ) → ℕ → ℕ
track_bitrate conf defaults ch =
    let key = if ch == 0 then 2 else ch in
    or_else (conf key) (or_default (defaults key) (defaults 2) key)

unfoldable pub resolve_bitrates : Text → Option (List (Text × ℕ)) → Text → List ℕ → List ℕ
unfolding parse_map defaults_for_encoder
resolve_bitrates text decoded encoder channels =
    map (track_bitrate (parse_map text decoded) (defaults_for_encoder encoder)) channels

track_positive_aac : (conf : ℕ → Option ℕ) (ch : ℕ) → 0 < track_bitrate conf defaults_aac ch
unfolding track_bitrate
track_positive_aac conf ch = ground arith

track_positive_opus : (conf : ℕ → Option ℕ) (ch : ℕ) → 0 < track_bitrate conf defaults_opus ch
unfolding track_bitrate
track_positive_opus conf ch = ground arith

-- Every track has a positive bit rate, whatever the profile says and however many channels it has.
pub resolve_bitrates_positive :
    (text : Text) (decoded : Option (List (Text × ℕ))) (encoder : Text) (channels : List ℕ)
    → All (λ b. 0 < b) (resolve_bitrates text decoded encoder channels)
      × (length (resolve_bitrates text decoded encoder channels) ≡ length channels)
unfolding resolve_bitrates
resolve_bitrates_positive text decoded encoder channels = (positive channels, counted channels)
  where
    rate : ℕ → ℕ
    rate = track_bitrate (parse_map text decoded) (defaults_for_encoder encoder)

    one : (ch : ℕ) → 0 < rate ch
    one ch = elim (Bool-cases (text_eq encoder (codes "opus"))) [
      | inl e ↦ rw e (track_positive_opus (parse_map text decoded) ch)
      | inr e ↦ rw e (track_positive_aac (parse_map text decoded) ch)
    ]

    positive : (chs : List ℕ) → All (λ b. 0 < b) (map rate chs)
    positive [] = tt
    positive (ch ∷ chs) = (one ch, positive chs)

    counted : (chs : List ℕ) → length (map rate chs) ≡ length chs
    counted [] = refl
    counted (ch ∷ chs) = ap suc (counted chs)

-- A track that the profile says nothing of gets 64 kbps for each channel, at any number of channels.
pub track_bitrate_aac :
    (conf : ℕ → Option ℕ) (ch : ℕ)
    → 0 < ch
    → conf ch ≡ none
    → track_bitrate conf defaults_aac ch ≡ 64 * ch
unfolding track_bitrate
track_bitrate_aac conf ch p h = ground arith
