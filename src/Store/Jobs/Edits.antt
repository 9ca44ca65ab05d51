-- ===== src/Store/Jobs/Edits.antt =====
-- internal/store/queries.go: the statements that retry, delete, insert and re-profile jobs.
use recodarr.Prelude.{
  ℕ, suc, Text, codes, text_eq, Bool, not, ◌&&◌, Option, none, List, [], ◌∷◌, ◌++◌, length, keep,
  any_of, ◌==◌, if◌then◌else◌,
}
use recodarr.Store.Rows.{Status, waiting_for_seed, encoding, failed, status_text, JobRow}
use recodarr.Store.Jobs.Table.{
  Stmt, is_status, is_finished, id_in, update_where, delete_where, ignore,
}

abbrev pub retry_row : ℕ → JobRow → JobRow
retry_row now j = record j {
  status = waiting_for_seed;
  error = [];
  encode_log = [];
  refresh_error = [];
  attempts = 0;
  started_at = none;
  finished_at = none;
  original_size = none;
  final_size = none;
  updated_at = now;
}

unfoldable pub retry_job : ℕ → ℕ → Stmt (Unit {0})
unfolding update_where
retry_job now id db =
    ignore (update_where (λ j. j.id == id && is_finished j.status) (retry_row now) db)

unfoldable pub retry_all_failed : ℕ → Stmt ℕ
unfolding update_where
retry_all_failed now = update_where (λ j. is_status j.status failed) (retry_row now)

unfoldable pub retry_jobs_by_ids : ℕ → List ℕ → Stmt ℕ
unfolding update_where
retry_jobs_by_ids now ids db =
    if length ids == 0
    then (0, db)
    else update_where (λ j. id_in ids j.id && is_finished j.status) (retry_row now) db

unfoldable pub delete_job : ℕ → Stmt (Unit {0})
unfolding delete_where
delete_job id db = ignore (delete_where (λ j. j.id == id && is_finished j.status) db)

abbrev pub terminal_statuses : List Text
terminal_statuses =
    codes "done"
    ∷ codes "failed"
    ∷ codes "skipped"
    ∷ codes "waiting_for_seed"
    ∷ codes "waiting_for_hardlink"
    ∷ codes "ready"
    ∷ []

unfoldable pub is_terminal_deletable : Text → Bool
is_terminal_deletable s = any_of (λ t. text_eq t s) terminal_statuses

abbrev pub or_finished : List Text → List Text
or_finished [] = codes "done" ∷ codes "failed" ∷ codes "skipped" ∷ []
or_finished (s ∷ ss) = s ∷ ss

-- `status IN (…)`
abbrev pub status_in : List Text → Status → Bool
status_in texts s = any_of (λ t. text_eq t (status_text s)) texts

unfoldable pub delete_terminal_jobs : List Text → Stmt ℕ
unfolding delete_where
delete_terminal_jobs statuses db =
    let clean = keep is_terminal_deletable (or_finished statuses) in
    if length clean == 0 then (0, db) else delete_where (λ j. status_in clean j.status) db

unfoldable pub delete_jobs_by_ids : List ℕ → Stmt ℕ
unfolding delete_where
delete_jobs_by_ids ids db =
    if length ids == 0
    then (0, db)
    else delete_where (λ j. id_in ids j.id && not (is_status j.status encoding)) db

unfoldable pub update_job_profile : ℕ → ℕ → Option ℕ → Stmt (Unit {0})
unfolding update_where
update_job_profile now id pid db =
    ignore
      (update_where (λ j. j.id == id) (λ j. record j { profile_id = pid; updated_at = now }) db)

unfoldable pub set_jobs_profile : ℕ → List ℕ → Option ℕ → Stmt ℕ
unfolding update_where
set_jobs_profile now ids pid db =
    if length ids == 0
    then (0, db)
    else update_where (λ j. id_in ids j.id && not (is_status j.status encoding))
        (λ j. record j { profile_id = pid; updated_at = now }) db

abbrev or_text : Text → Text → Text
or_text [] d = d
or_text (c ∷ s) d = c ∷ s

-- The columns that the INSERT does not name take their defaults.
unfoldable pub insert_row : ℕ → ℕ → JobRow → JobRow
insert_row now id r = record r {
  id = id;
  error = [];
  encode_log = [];
  refresh_error = [];
  attempts = 0;
  created_at = now;
  updated_at = now;
  started_at = none;
  finished_at = none;
  original_size = none;
  final_size = none;
  tags = or_text r.tags (codes "[]");
  source = or_text r.source (codes "poll");
}

unfoldable pub insert_job : ℕ → JobRow → Stmt ℕ
unfolding insert_row
insert_job now r db = (
  db.next_id,
  record { rows = db.rows ++ insert_row now db.next_id r ∷ []; next_id = suc db.next_id },
)
