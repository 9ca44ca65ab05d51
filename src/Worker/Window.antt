-- ===== src/Worker/Window.antt =====
-- internal/job/job.go: parseHHMM and inEncodingWindow; internal/api/admin.go: isValidHHMM, by which
-- the settings are checked before they are stored. Minutes are integers; a hour that does not fit in
-- 64 bits times 60 is out of scope, since the settings never hold one.
use recodarr.Prelude.Paths.{is_empty}
use recodarr.Prelude.Numbers.{digits_value, atoi}
use recodarr.Prelude.{
  ℕ, ◌+◌, ◌*◌, ◌<◌, ◌≡◌, ◌≢◌, refl, Bool, true, false, not, ◌&&◌, ◌||◌, Text, [], ◌∷◌, Option, none,
  some, ltb, ◌==◌, if◌then◌else◌, arith,
}
use recodarr.Prelude.Int.{ℤ, pos, negsuc, pos_part, neg_part, sub_ℕ, lebℤ, ltbℤ}

-- `strings.SplitN(s, sep, 2)`: the text before the first separator, and the rest.
unfoldable pub split_once : ℕ → Text → Option (Text × Text)
split_once sep [] = none
split_once sep (c ∷ s) =
    if c == sep
    then some ([], s)
    else elim (split_once sep s) [ none ↦ none | some (a, b) ↦ some (c ∷ a, b) ]

unfoldable pub parse_hhmm : Text → ℤ × ℤ
unfolding split_once
parse_hhmm s = elim (split_once b':' s) [
  | none ↦ (pos 0, pos 0)
  | some (h, m) ↦ ((atoi h).0, (atoi m).0)
]

-- h * 60 + m
abbrev pub minutes_of : ℤ × ℤ → ℤ
minutes_of (h, m) = sub_ℕ (pos_part h * 60 + pos_part m) (neg_part h * 60 + neg_part m)

unfoldable pub in_minutes : ℤ → ℤ → ℤ → Bool
in_minutes start stop now =
    if lebℤ start stop then lebℤ start now && ltbℤ now stop else lebℤ start now || ltbℤ now stop

-- The time of day is `now_hour` and `now_minute`.
unfoldable pub in_encoding_window : Text → Text → ℕ → ℕ → Bool
unfolding parse_hhmm in_minutes
in_encoding_window start stop now_hour now_minute =
    if is_empty start || is_empty stop
    then true
    else in_minutes (minutes_of (parse_hhmm start)) (minutes_of (parse_hhmm stop))
        (pos (now_hour * 60 + now_minute))

abbrev below : ℕ → ℤ × Bool → Bool
below n (pos k, true) = ltb k n
below n (pos k, false) = false
below n (negsuc k, b) = false

unfoldable pub is_valid_hhmm : Text → Bool
is_valid_hhmm (a ∷ b ∷ c ∷ d ∷ e ∷ []) =
    if c == b':' then below 24 (atoi (a ∷ b ∷ [])) && below 60 (atoi (d ∷ e ∷ [])) else false
is_valid_hhmm _ = false

pub record IsTimeOfDay (t : ℤ × ℤ) : Type 0 where
  pub hour : ℕ
  pub minute : ℕ
  pub reads : t ≡ (pos hour, pos minute)
  pub hour_bound : hour < 24
  pub minute_bound : minute < 60

below_reads : (n : ℕ) (r : ℤ × Bool) → below n r ≡ true → (k : ℕ) × (r.0 ≡ pos k) × (k < n)
below_reads n (pos k, true) h = (k, refl, ground arith)
below_reads n (pos k, false) h = cc
below_reads n (negsuc k, b) h = cc

-- A colon is no digit and no sign, so no two bytes before the middle colon of a valid text hold one.
atoi_colon :
    (a b n : ℕ) → below n (atoi (a ∷ b ∷ [])) ≡ true → ((a == b':') ≡ false) × ((b == b':') ≡ false)
unfolding atoi digits_value
atoi_colon a b n h = ground arith

split_once_middle :
    (a b c d e : ℕ)
    → (a == b':') ≡ false
    → (b == b':') ≡ false
    → (c == b':') ≡ true
    → split_once b':' (a ∷ b ∷ c ∷ d ∷ e ∷ []) ≡ some (a ∷ b ∷ [], d ∷ e ∷ [])
unfolding split_once
split_once_middle a b c d e ha hb hc = ground arith

parse_hhmm_split :
    (s h m : Text) → split_once b':' s ≡ some (h, m) → parse_hhmm s ≡ ((atoi h).0, (atoi m).0)
unfolding parse_hhmm
parse_hhmm_split s h m e = rw (e, parse_hhmm)

time_of_day :
    (s h m : Text)
    → split_once b':' s ≡ some (h, m)
    → below 24 (atoi h) ≡ true
    → below 60 (atoi m) ≡ true
    → IsTimeOfDay (parse_hhmm s)
time_of_day s h m e hb mb =
    let (hour, hr, hl) = below_reads 24 (atoi h) hb in
    let (minute, mr, ml) = below_reads 60 (atoi m) mb in
    record {
      hour = hour;
      minute = minute;
      reads = rw (parse_hhmm_split s h m e, hr, mr);
      hour_bound = hl;
      minute_bound = ml;
    }

-- A text that the settings accept is read as a time of day.
pub parse_hhmm_valid : (s : Text) → is_valid_hhmm s ≡ true → IsTimeOfDay (parse_hhmm s)
unfolding is_valid_hhmm
parse_hhmm_valid (a ∷ b ∷ c ∷ d ∷ e ∷ []) h =
    let hour : below 24 (atoi (a ∷ b ∷ [])) ≡ true = ground arith in
    let minute : below 60 (atoi (d ∷ e ∷ [])) ≡ true = ground arith in
    let colon : (c == b':') ≡ true = ground arith in
    let (na, nb) = atoi_colon a b 24 hour in
    time_of_day (a ∷ b ∷ c ∷ d ∷ e ∷ []) (a ∷ b ∷ []) (d ∷ e ∷ [])
      (split_once_middle a b c d e na nb colon) hour minute
parse_hhmm_valid _ h = cc

-- A window and the window from its end to its start divide the day: at each time exactly one of them
-- is open, if they differ.
pub in_minutes_swap :
    (start stop now : ℤ)
    → start ≢ stop
    → in_minutes stop start now ≡ not (in_minutes start stop now)
unfolding in_minutes
in_minutes_swap start stop now h = ground arith
