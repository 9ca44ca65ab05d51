-- ===== src/Store/Jobs/Marks.antt =====
-- internal/store/queries.go: the statements by which the worker moves a job from status to status.
-- `now` is CURRENT_TIMESTAMP.
use recodarr.Prelude.{
  ℕ, ◌+◌, ◌-◌, Text, Bool, ◌&&◌, none, some, List, [], ◌∷◌, length, keep, ltb, ◌==◌, if◌then◌else◌,
}
use recodarr.Store.Rows.{Status, ready, encoding, done, failed, skipped, JobRow}
use recodarr.Store.Jobs.Table.{Stmt, is_status, update_where, positive, ignore}

abbrev pub max_job_attempts : ℕ
max_job_attempts = 5

-- `n > 0` of the rows affected
unfoldable pub transition_job_status : ℕ → ℕ → Status → Status → Stmt Bool
unfolding update_where
transition_job_status now id from to db = positive (
    update_where (λ j. j.id == id && is_status j.status from)
      (λ j. record j { status = to; updated_at = now }) db)

abbrev pub claimable : ℕ → JobRow → Bool
claimable id j = j.id == id && is_status j.status ready && ltb j.attempts max_job_attempts

abbrev pub claim_row : ℕ → JobRow → JobRow
claim_row now j = record j {
  status = encoding;
  started_at = some now;
  updated_at = now;
  original_size = some j.file_size;
  attempts = j.attempts + 1;
}

unfoldable pub mark_job_encoding : ℕ → ℕ → Stmt Bool
unfolding update_where
mark_job_encoding now id db = positive (update_where (claimable id) (claim_row now) db)

abbrev pub requeue_row : ℕ → JobRow → JobRow
requeue_row now j = record j {
  status = ready;
  started_at = none;
  original_size = none;
  attempts = j.attempts - 1;  -- MAX(attempts - 1, 0)
  updated_at = now;
}

unfoldable pub requeue_encoding : ℕ → ℕ → Stmt (Unit {0})
unfolding update_where
requeue_encoding now id db =
    ignore (update_where (λ j. j.id == id && is_status j.status encoding) (requeue_row now) db)

abbrev pub recover_row : ℕ → JobRow → JobRow
recover_row now j = record j { status = ready; started_at = none; updated_at = now }

abbrev paths_of : List JobRow → List Text
paths_of [] = []
paths_of (j ∷ js) = j.file_path ∷ paths_of js

-- The paths of the orphans; the UPDATE runs only if there are any.
unfoldable pub recover_orphan_encoding : ℕ → Stmt (List Text)
unfolding update_where
recover_orphan_encoding now db =
    let orphans = keep (λ j. is_status j.status encoding) db.rows in
    if length orphans == 0 then ([], db) else (
      paths_of orphans,
      (update_where (λ j. is_status j.status encoding) (recover_row now) db).1,
    )

unfoldable pub set_refresh_error : ℕ → ℕ → Text → Stmt (Unit {0})
unfolding update_where
set_refresh_error now id msg db =
    ignore
      (update_where (λ j. j.id == id) (λ j. record j { refresh_error = msg; updated_at = now }) db)

abbrev pub done_row : ℕ → ℕ → JobRow → JobRow
done_row now final j = record j {
  status = done;
  final_size = some final;
  finished_at = some now;
  updated_at = now;
  error = [];
}

unfoldable pub mark_job_done : ℕ → ℕ → ℕ → Stmt (Unit {0})
unfolding update_where
mark_job_done now id final db = ignore (update_where (λ j. j.id == id) (done_row now final) db)

abbrev pub skipped_row : ℕ → Text → JobRow → JobRow
skipped_row now reason j = record j {
  status = skipped;
  finished_at = some now;
  updated_at = now;
  error = reason;
  encode_log = [];
}

unfoldable pub mark_job_skipped : ℕ → ℕ → Text → Stmt (Unit {0})
unfolding update_where
mark_job_skipped now id reason db =
    ignore (update_where (λ j. j.id == id) (skipped_row now reason) db)

abbrev pub failed_row : ℕ → Text → Text → JobRow → JobRow
failed_row now msg log j = record j {
  status = failed;
  finished_at = some now;
  updated_at = now;
  error = msg;
  encode_log = log;
}

unfoldable pub mark_job_failed : ℕ → ℕ → Text → Text → Stmt (Unit {0})
unfolding update_where
mark_job_failed now id msg log db =
    ignore (update_where (λ j. j.id == id) (failed_row now msg log) db)
