-- ===== src/Tests/Encoder.antt =====
-- The theorems on HandBrake runs, the size guard and a whole encode at concrete inputs.
use recodarr.Worker.Guard.{
  round, after_call, settings_of, begin_try, fits_threshold, judge_result, next_try, policy_of,
  retry_header, try_commit,
}
use recodarr.Files.{remove}
use recodarr.Handbrake.Run.{commit, discard_temp}
use recodarr.Handbrake.Temp.{temp_prefix}
use recodarr.Handbrake.WorkResult.{after_last, number_prefix}
use recodarr.Prelude.Numbers.{digits_of, digits_value, itoa}
use recodarr.Prelude.Paths.{
  clean, clean_elements, ext_from, is_abs, join_elements, split_by, up_to_slash,
}
use recodarr.Prelude.{lower, to_lower}
use recodarr.Store.Rows.{encoding}
use recodarr.Worker.Encode.{encode_one}
use recodarr.Worker.Encode.Ends.{encode_one-Ended, Present, Ended}
use recodarr.Worker.Situation.{Situation, World}
use recodarr.Store.Jobs.Queries.{get_job}
use recodarr.Prelude.Paths.{ext}
use recodarr.Prelude.Paths.{dir}
use recodarr.Prelude.Paths.{join}
use recodarr.Files.{rename, write}
use recodarr.Prelude.Numbers.{atoi}
use recodarr.Prelude.{has_prefix}
use recodarr.Handbrake.WorkResult.{parse_work_result}
use recodarr.Prelude.{equal_fold}
use recodarr.Prelude.Paths.{ext}
use recodarr.Prelude.Paths.{dir}
use recodarr.Prelude.Paths.{join}
use recodarr.Prelude.Paths.{ext}
use recodarr.Prelude.Paths.{dir}
use recodarr.Prelude.Paths.{join}
use recodarr.Prelude.Numbers.{atoi}
use recodarr.Prelude.{has_prefix}
use recodarr.Handbrake.WorkResult.{parse_work_result}
use recodarr.Prelude.{equal_fold}
use recodarr.Worker.Guard.Termination.{encode_loop_total, attempts_of}
use recodarr.Worker.Guard.Laws.{encode_loop-Settled, Settled, IsCareful}
use recodarr.Handbrake.Run.Safety.{run_error_keeps}
use recodarr.Files.{Files}
use recodarr.Tests.{
  sample_job, JobRow, bad_process, library, sample_settings, good_process, sample_profile,
  film_path,
}
use recodarr.Worker.Guard.Local.{local-IsCareful, local}
use recodarr.Handbrake.Temp.{temp_path}
use recodarr.Worker.Guard.{encoded, first_try, encode_loop, End, Plan, plan_of, Encoder}
use recodarr.Prelude.Paths.{after_slash, strip_slashes, base}
use recodarr.Prelude.{
  ◌+◌, ◌≤◌, ◌≡◌, refl, true, false, Text, codes, text_eq, [], ◌∷◌, none, some, arith,
}
use recodarr.Handbrake.Run.{publish, run}

abbrev film_temp : Text
film_temp = codes "/media/.film.mkv.recodarr.mkv"

other_path : Text
other_path = codes "/media/other.mkv"

run_error_keeps_example :
    (run film_path sample_settings bad_process library).1 (codes "/media/film.mkv") ≡ some 1000
unfolding run publish temp_path equal_fold parse_work_result has_prefix atoi join dir base ext
run_error_keeps_example =
    run_error_keeps film_path film_path sample_settings bad_process library _ refl refl

abbrev sample_encoder : Encoder
sample_encoder = local (λ n. good_process) (λ n. true) film_path

abbrev sample_plan : Plan
sample_plan = plan_of sample_profile

local-IsCareful_example : IsCareful sample_encoder film_path
unfolding base strip_slashes after_slash text_eq
local-IsCareful_example = local-IsCareful (λ n. good_process) (λ n. true) film_path refl

encode_loop_total_example :
    (end : End) × (fs' : Files) × (encode_loop sample_encoder sample_profile [] sample_plan
        film_path 1000 2
        (first_try sample_profile)
        library
      ≡ some (end, fs'))
    × (attempts_of end ≤ sample_plan.max_retries + 1)
unfolding plan_of text_eq
encode_loop_total_example =
    encode_loop_total sample_encoder sample_profile [] sample_plan film_path 1000 2
      (first_try sample_profile) library (omega arith) (omega arith)

encode_loop-Settled_example :
    Settled film_path 1000 10
      (some 1000)
      (encoded
        (record {
          final_size = 600;
          temp_path_of = film_temp;
          log = codes "libhb: work result = 0";
        })
        (record (first_try sample_profile) { attempt = 1; log = codes "libhb: work result = 0" }))
      (rename film_temp film_path (write film_temp (some 600) library))
unfolding plan_of text_eq encode_loop round after_call local run equal_fold settings_of
    parse_work_result has_prefix atoi write temp_path join dir base remove rename commit
    discard_temp publish temp_prefix after_last number_prefix digits_of digits_value itoa
    after_slash clean clean_elements ext ext_from is_abs join_elements split_by strip_slashes
    up_to_slash lower to_lower begin_try fits_threshold judge_result next_try policy_of retry_header
    try_commit
encode_loop-Settled_example =
    encode_loop-Settled sample_encoder sample_profile [] sample_plan film_path 1000 2
      (first_try sample_profile) library _ _ refl local-IsCareful_example refl

abbrev sample_situation : Situation
sample_situation = record {
  now = 50;
  tags_json = none;
  mappings = none;
  update_profile_fails = false;
  profiles = λ id. some sample_profile;
  output_suffix_enabled = false;
  output_suffix = [];
  probe_result = none;
  bitrates_json = none;
  available = none;
  encoder_of = sample_encoder;
  cancelled_ctx = false;
  requeue_asked = false;
  mark_fails = false;
  instance_found = true;
  refresh_error_text = none;
  text_of = λ r. codes "reason";
  sidecar_size = 0;
}

abbrev encoding_job : JobRow
encoding_job = record sample_job { id = 1; status = encoding; attempts = 1 }

abbrev sample_world : World
sample_world = record {
  db = record { rows = encoding_job ∷ []; next_id = 2 };
  files = library;
  notices = [];
}

sample-Present : Present 1 sample_world.db
unfolding get_job
sample-Present = record { row = encoding_job; found = refl }

encode_one-Ended_example : Ended 1 (encode_one sample_situation encoding_job sample_world).db
encode_one-Ended_example =
    encode_one-Ended sample_situation encoding_job sample_world refl sample-Present
