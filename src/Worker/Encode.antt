-- ===== src/Worker/Encode.antt =====
-- internal/job/job.go: encodeOne, and the refresh of the library after it.
use recodarr.Worker.Report.{truncate_log, check_disk_space, sidecar_path}
use recodarr.Audio.{resolve_bitrates}
use recodarr.Worker.Filters.{evaluate_filters}
use recodarr.Files.{write}
use recodarr.Store.Jobs.Marks.{
  mark_job_done, requeue_encoding, set_refresh_error, mark_job_failed, mark_job_skipped,
}
pub mod Ends
use recodarr.Prelude.Paths.{is_empty}
use recodarr.Store.Jobs.Edits.{update_job_profile}
use recodarr.Store.Rows.{ProfileRow, JobRow}
use recodarr.Store.Jobs.Table.{exec, Stmt}
use recodarr.Worker.Resolve.{reresolve_profile}
use recodarr.Worker.Situation.{
  encode_error, cancelled, larger, larger_after, filtered, profile_lookup, no_profile, Reason,
  World, Situation,
}
use recodarr.Prelude.{
  ℕ, zero, suc, ◌+◌, ◌-◌, ◌*◌, ◌/◌, ◌%◌, ◌≤◌, ◌<◌, ◌≡◌, ◌≢◌, refl, sym, ap, ◌∙◌, Bool, true, false,
  not, ◌&&◌, ◌||◌, Text, codes, text_eq, List, [], ◌∷◌, ◌++◌, Option, none, some, length, take,
  drop, keep, any_of, find_first, count_of, All, ltb, leb, ◌==◌, if◌then◌else◌, arith, Bool-cases,
  Option-cases, inl, inr, ◌⊎◌,
}
use recodarr.Worker.Guard.{
  encoded, failed_with, is_retry, kept, first_try, End, encode_loop, Plan, plan_of, off,
  keep_original, retry_higher_crf,
}
use recodarr.Handbrake.Run.{discard_temp}

-- A statement that may fail; the callers drop its error.
abbrev pub attempt_stmt : Bool → Stmt (Unit {0}) → World → World
attempt_stmt fails s w = record w { db = (exec fails s w.db).1 }

abbrev pub notify : Text → ℕ → World → World
notify status size w = record w {
  notices = w.notices ++ record { notice_status = status; notice_size = size } ∷ [];
}

-- The sidecar files, whose text is not modelled: a failure to write one is only logged.
abbrev pub write_sidecar : Situation → JobRow → World → World
write_sidecar env j w =
    if env.output_suffix_enabled
    then record w {
      files = write (sidecar_path j.file_path env.output_suffix) (some env.sidecar_size) w.files;
    }
    else w

unfoldable pub fail_job : Situation → ℕ → Reason → Text → World → World
fail_job env id reason log w =
    attempt_stmt env.mark_fails (mark_job_failed env.now id (env.text_of reason) log) w

unfoldable pub skip_job : Situation → JobRow → Reason → World → World
skip_job env j reason w =
    write_sidecar env j
      (attempt_stmt env.mark_fails (mark_job_skipped env.now j.id (env.text_of reason)) w)

abbrev is_library_kind : Text → Bool
is_library_kind kind = text_eq kind (codes "sonarr") || text_eq kind (codes "radarr")

abbrev or_no_error : Option Text → Text
or_no_error none = []
or_no_error (some e) = e

unfoldable pub refresh_arr : Situation → JobRow → World → World
refresh_arr env j w =
    if j.arr_parent_id == 0
    then w
    else if not env.instance_found
    then w
    else if not (is_library_kind j.arr_kind)
    then w
    else attempt_stmt env.mark_fails
        (set_refresh_error env.now j.id (or_no_error env.refresh_error_text)) w

-- What follows the loop, by how it ended.
unfoldable pub conclude : Situation → JobRow → Plan → End → World → World
conclude env j plan (kept final t) w = notify (codes "skipped") 0 (
    skip_job env j
      (if is_retry plan.policy
        then larger_after (t.attempt - 1) final j.file_size
        else larger final j.file_size)
      w)
conclude env j plan (failed_with r e t) w =
    let requeued = attempt_stmt env.mark_fails (requeue_encoding env.now j.id) w in
    let discarded =
      if is_empty r.temp_path_of
      then w
      else record w { files = discard_temp r.temp_path_of w.files } in
    let reason = if env.cancelled_ctx then cancelled else encode_error e in
    if env.requeue_asked && env.cancelled_ctx
    then requeued
    else notify (codes "failed") 0 (fail_job env j.id reason (truncate_log t.log 200) discarded)
conclude env j plan (encoded r t) w =
    let marked = attempt_stmt env.mark_fails (mark_job_done env.now j.id r.final_size) w in
    if env.mark_fails
    then w
    else refresh_arr env j (notify (codes "done") r.final_size (write_sidecar env j marked))

abbrev audio_rates : Situation → ProfileRow → List ℕ
audio_rates env p =
    if not (is_empty p.audio_encoder)
      && not (text_eq p.audio_encoder (codes "copy"))
      && is_empty p.audio_mixdown
    then elim env.probe_result [
      | none ↦ []
      | some pr ↦
          if is_empty pr.audio_channels
          then []
          else resolve_bitrates p.audio_bitrates_by_channels env.bitrates_json p.audio_encoder
              pr.audio_channels
    ]
    else []

-- The encode proper; the fuel is the number of attempts that the plan allows.
unfoldable pub encode_with : Situation → JobRow → ProfileRow → World → World
unfolding conclude
encode_with env j p w =
    let plan = plan_of p in
    elim (encode_loop env.encoder_of p (audio_rates env p) plan j.file_path j.file_size
      (plan.max_retries + 1) (first_try p) w.files) [
        | none ↦ w
        | some (end, files) ↦ conclude env j plan end (record w { files = files })
      ]

unfoldable pub encode_with_profile : Situation → JobRow → ProfileRow → World → World
unfolding encode_with
encode_with_profile env j p w = elim (evaluate_filters env.probe_result p j) [
  | some reason ↦ skip_job env j (filtered reason) w
  | none ↦ elim (check_disk_space env.available j.file_size) [
    | some reason ↦ fail_job env j.id reason [] w
    | none ↦ encode_with env j p w
  ]
]

unfoldable pub encode_resolved : Situation → JobRow → World → World
unfolding encode_with_profile
encode_resolved env j w = elim j.profile_id [
  | none ↦ fail_job env j.id no_profile [] w
  | some pid ↦ elim (env.profiles pid) [
    | none ↦ fail_job env j.id profile_lookup [] w
    | some p ↦ encode_with_profile env j p w
  ]
]

unfoldable pub encode_one : Situation → JobRow → World → World
unfolding encode_resolved reresolve_profile
encode_one env j w =
    let (pid, changed) = reresolve_profile env j in
    if changed
    then (if env.update_profile_fails
        then encode_resolved env j w
        else encode_resolved env (record j { profile_id = pid })
            (attempt_stmt false (update_job_profile env.now j.id pid) w))
    else encode_resolved env j w
