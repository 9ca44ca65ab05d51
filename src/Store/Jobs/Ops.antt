-- ===== src/Store/Jobs/Ops.antt =====
-- The statements on the table `jobs` that the program executes, as one type of operations, and the
-- tables that they lead to.
use recodarr.Prelude.{ℕ, Text, Bool, true, false, Option, List, [], ◌∷◌}
use recodarr.Store.Rows.{Status, waiting_for_seed, waiting_for_hardlink, ready, JobRow}
use recodarr.Store.Jobs.Table.{Jobs}
use recodarr.Store.Jobs.Marks.{
  transition_job_status, mark_job_encoding, requeue_encoding, recover_orphan_encoding,
  set_refresh_error, mark_job_done, mark_job_skipped, mark_job_failed,
}
use recodarr.Store.Jobs.Edits.{
  retry_job, retry_all_failed, retry_jobs_by_ids, delete_job, delete_terminal_jobs,
  delete_jobs_by_ids, update_job_profile, set_jobs_profile, insert_job,
}

pub data Op : Type 0 where
  seed_gone hardlink_gone claim requeue retry remove : ℕ → Op
  recover retry_failed : Op
  refresh_failed : ℕ → Text → Op
  finish : ℕ → ℕ → Op
  skip : ℕ → Text → Op
  fail : ℕ → Text → Text → Op
  retry_ids remove_ids : List ℕ → Op
  remove_statuses : List Text → Op
  set_profile : ℕ → Option ℕ → Op
  set_profiles : List ℕ → Option ℕ → Op
  insert : JobRow → Op

-- The table after an operation at the time `now`.
unfoldable pub apply : ℕ → Op → Jobs → Jobs
unfolding transition_job_status mark_job_encoding requeue_encoding recover_orphan_encoding
    set_refresh_error mark_job_done mark_job_skipped mark_job_failed retry_job retry_all_failed
    retry_jobs_by_ids delete_job delete_terminal_jobs delete_jobs_by_ids update_job_profile
    set_jobs_profile insert_job
apply now (seed_gone id) db = (transition_job_status now id waiting_for_seed ready db).1
apply now (hardlink_gone id) db = (transition_job_status now id waiting_for_hardlink ready db).1
apply now (claim id) db = (mark_job_encoding now id db).1
apply now (requeue id) db = (requeue_encoding now id db).1
apply now (retry id) db = (retry_job now id db).1
apply now (remove id) db = (delete_job id db).1
apply now recover db = (recover_orphan_encoding now db).1
apply now retry_failed db = (retry_all_failed now db).1
apply now (refresh_failed id msg) db = (set_refresh_error now id msg db).1
apply now (finish id final) db = (mark_job_done now id final db).1
apply now (skip id reason) db = (mark_job_skipped now id reason db).1
apply now (fail id msg log) db = (mark_job_failed now id msg log db).1
apply now (retry_ids ids) db = (retry_jobs_by_ids now ids db).1
apply now (remove_ids ids) db = (delete_jobs_by_ids ids db).1
apply now (remove_statuses ss) db = (delete_terminal_jobs ss db).1
apply now (set_profile id pid) db = (update_job_profile now id pid db).1
apply now (set_profiles ids pid) db = (set_jobs_profile now ids pid db).1
apply now (insert r) db = (insert_job now r db).1

unfoldable pub run : List (ℕ × Op) → Jobs → Jobs
run [] db = db
run ((now, op) ∷ ops) db = run ops (apply now op db)

abbrev pub empty_jobs : Jobs
empty_jobs = record { rows = []; next_id = 1 }

abbrev pub is_waiting : Status → Bool
is_waiting waiting_for_seed = true
is_waiting waiting_for_hardlink = true
is_waiting _ = false
