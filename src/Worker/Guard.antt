-- ===== src/Worker/Guard.antt =====
-- internal/job/job.go, encodeOne: the loop of the size guard, which encodes a file and keeps the
-- result only if it is small enough, with retries at a higher compression. The encoder, local or
-- remote, is a parameter: `encode n` is the n-th call.
use recodarr.Prelude.Paths.{is_empty}
use recodarr.Files.{Files}
use recodarr.Store.Rows.{ProfileRow}
use recodarr.Handbrake.Args.{Settings}
use recodarr.Prelude.Numbers.{itoa}
use recodarr.Handbrake.Run.{discard_temp, rename_failed, RunOutcome, commit, RunError, RunResult}
use recodarr.Prelude.{
  equal_fold, ℕ, zero, suc, ◌+◌, ◌-◌, ◌*◌, ◌/◌, ◌%◌, ◌≤◌, ◌<◌, ◌≡◌, ◌≢◌, refl, sym, ap, ◌∙◌, Bool,
  true, false, not, ◌&&◌, ◌||◌, Text, codes, text_eq, List, [], ◌∷◌, ◌++◌, Option, none, some,
  length, take, drop, keep, any_of, find_first, count_of, All, ltb, leb, ◌==◌, if◌then◌else◌, arith,
  Bool-cases, Option-cases, inl, inr, ◌⊎◌,
}
pub mod Laws
pub mod Termination
pub mod Local

pub data Policy : Type 0 where
  off keep_original retry_higher_crf : Policy

-- What encodeOne derives from the profile before the loop.
pub record Plan : Type 0 where
  pub policy : Policy
  pub abr : Bool
  pub max_retries : ℕ
  pub step : ℕ

unfoldable pub policy_of : Text → Policy
policy_of s =
    if text_eq s (codes "keep_original")
    then keep_original
    else if text_eq s (codes "retry_higher_crf")
    then retry_higher_crf
    else off

abbrev pub is_off : Policy → Bool
is_off off = true
is_off _ = false

abbrev pub is_retry : Policy → Bool
is_retry retry_higher_crf = true
is_retry _ = false

unfoldable pub plan_of : ProfileRow → Plan
unfolding policy_of
plan_of p =
    let abr = equal_fold p.rate_control (codes "abr") in
    let policy = policy_of p.bloat_policy in
    if is_retry policy
    then record {
      policy = policy;
      abr = abr;
      max_retries = p.bloat_retry_max;
      step = if p.bloat_retry_step == 0 then (if abr then 200 else 3) else p.bloat_retry_step;
    }
    else record { policy = policy; abr = abr; max_retries = 0; step = 0 }

-- `FinalSize <= threshold`, where the threshold, which may be negative, is the size of the original
-- less the savings that are asked for. Sizes up to 2 ^ 63 / 100 do not overflow.
unfoldable pub fits_threshold : ℕ → ℕ → ℕ → Bool
fits_threshold final size percent =
    if ltb 0 percent && ltb 0 size then leb (final + size * percent / 100) size else leb final size

-- The variables of the loop.
pub record Try : Type 0 where
  pub attempt : ℕ
  pub quality : ℕ
  pub bitrate : ℕ
  pub log : Text

pub data End : Type 0 where
  encoded : RunResult → Try → End
  failed_with : RunResult → RunError → Try → End
  kept : ℕ → Try → End

unfoldable pub settings_of : ProfileRow → List ℕ → Bool → Try → Settings
settings_of p rates no_commit t = record {
  encoder = p.encoder;
  encoder_preset = p.encoder_preset;
  encoder_profile = p.encoder_profile;
  encoder_tune = p.encoder_tune;
  encoder_level = p.encoder_level;
  rate_control = p.rate_control;
  quality = t.quality;
  video_bitrate = t.bitrate;
  max_width = p.max_width;
  max_height = p.max_height;
  audio_encoder = p.audio_encoder;
  audio_bitrate = p.audio_bitrate;
  audio_mixdown = p.audio_mixdown;
  audio_bitrates_per_track = rates;
  subtitle_copy = p.subtitle_copy;
  two_pass = p.two_pass;
  container_format = p.container_format;
  extra_args = p.extra_args;
  framerate = p.framerate;
  no_commit = no_commit;
}

-- What the loop calls: whether the n-th call goes to the remote agent, its result, and whether the
-- rename of the n-th commit succeeds.
pub record Encoder : Type 0 where
  pub remote : ℕ → Bool
  pub encode : ℕ → Settings → Files → RunOutcome × Files
  pub renames : ℕ → Bool

-- The line that separates the logs of the attempts.
unfoldable pub retry_header : Plan → Try → Text
retry_header plan t =
    if plan.abr
    then 10 ∷ codes "--- retry "
      ++ itoa t.attempt
      ++ codes " (ABR "
      ++ itoa t.bitrate
      ++ codes " kbps) ---"
      ++ 10 ∷ []
    else 10 ∷ codes "--- retry "
      ++ itoa t.attempt
      ++ codes " (CRF "
      ++ itoa t.quality
      ++ codes ") ---"
      ++ 10 ∷ []

unfoldable pub begin_try : Plan → Try → Try
unfolding retry_header
begin_try plan t = record t {
  attempt = t.attempt + 1;
  log = if ltb 0 t.attempt then t.log ++ retry_header plan t else t.log;
}

-- The settings of the next attempt; a bit rate below 200 is raised to 200.
unfoldable pub next_try : Plan → Try → Try
next_try plan t =
    if plan.abr
    then record t {
      bitrate = if ltb (t.bitrate - plan.step) 200 then 200 else t.bitrate - plan.step;
    }
    else record t { quality = t.quality + plan.step }

unfoldable pub try_commit : Text → RunResult → Bool → Try → Files → End × Files
try_commit source r renames t fs =
    let (ok, fs') = commit r.temp_path_of source renames fs in
    if ok then (encoded r t, fs') else (failed_with r rename_failed t, fs')

module _ (enc : Encoder) (p : ProfileRow) (rates : List ℕ) (plan : Plan) (source : Text)
    (size : ℕ) where
  -- What follows a successful call: `none` asks for another round.
  unfoldable pub judge_result : RunResult → Try → Files → Option End × Files
  judge_result r t fs =
      if is_off plan.policy
      then (if is_empty r.temp_path_of
          then (some (encoded r t), fs)
          else let (end, fs') = try_commit source r (enc.renames t.attempt) t fs in (some end, fs'))
      else if fits_threshold r.final_size size p.bloat_min_savings_percent
      then (let (end, fs') = try_commit source r (enc.renames t.attempt) t fs in (some end, fs'))
      else if is_retry plan.policy && leb t.attempt plan.max_retries
      then (none, discard_temp r.temp_path_of fs)
      else (some (kept r.final_size t), discard_temp r.temp_path_of fs)

  -- What follows a call, by whether it returned an error.
  unfoldable pub after_call : RunOutcome → Files → Try → Option End × Try × Files
  after_call (r, some e) fs t =
      let t' = record t { log = t.log ++ r.log } in (some (failed_with r e t'), t', fs)
  after_call (r, none) fs t =
      let t' = record t { log = t.log ++ r.log } in
      let (end, fs') = judge_result r t' fs in (end, t', fs')

  -- One round of the loop: `none` asks for another round, at the settings of the last attempt.
  unfoldable pub round : Try → Files → Option End × Try × Files
  round t0 fs =
      let t = begin_try plan t0 in
      let no_commit = not (is_off plan.policy) || enc.remote t.attempt in
      let (outcome, fs') = enc.encode t.attempt (settings_of p rates no_commit t) fs in
      after_call outcome fs' t

  unfoldable pub encode_loop : ℕ → Try → Files → Option (End × Files)
  encode_loop zero t fs = none
  encode_loop (suc f) t fs =
      let (end, t', fs') = round t fs in
      elim end [ some e ↦ some (e, fs') | none ↦ encode_loop f (next_try plan t') fs' ]

abbrev pub first_try : ProfileRow → Try
first_try p = record { attempt = 0; quality = p.quality; bitrate = p.video_bitrate; log = [] }
