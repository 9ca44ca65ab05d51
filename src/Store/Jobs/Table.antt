-- ===== src/Store/Jobs/Table.antt =====
-- internal/store/queries.go: the table `jobs`, the list of its rows by ascending id, and the forms of
-- its statements. A statement is the case in which SQLite executes it; `exec` adds the case in which
-- it fails, which changes nothing.
use recodarr.Prelude.{
  ℕ, Bool, true, false, not, Option, none, some, List, [], ◌∷◌, keep, any_of, count_of, ltb, ◌==◌,
  if◌then◌else◌,
}
use recodarr.Store.Rows.{
  Status, waiting_for_seed, waiting_for_hardlink, ready, encoding, done, failed, skipped, JobRow,
}

pub record Jobs : Type 0 where
  pub rows : List JobRow
  pub next_id : ℕ  -- AUTOINCREMENT

abbrev pub Stmt : Type 0 → Type 0
Stmt A = Jobs → A × Jobs

-- What a Go method returns: `none` stands for a non-nil error of the database.
abbrev pub exec : {A : Type 0} → Bool → Stmt A → Jobs → Option A × Jobs
exec true s db = (none, db)
exec false s db = let (a, db') = s db in (some a, db')

-- The predicates of the WHERE clauses.
abbrev pub is_status : Status → Status → Bool
is_status waiting_for_seed waiting_for_seed = true
is_status waiting_for_hardlink waiting_for_hardlink = true
is_status ready ready = true
is_status encoding encoding = true
is_status done done = true
is_status failed failed = true
is_status skipped skipped = true
is_status _ _ = false

-- `status IN ('failed','skipped','done')`
abbrev pub is_finished : Status → Bool
is_finished done = true
is_finished failed = true
is_finished skipped = true
is_finished _ = false

-- `id IN (…)`
abbrev pub id_in : List ℕ → ℕ → Bool
id_in ids i = any_of (λ k. k == i) ids

module _ (p : JobRow → Bool) (f : JobRow → JobRow) where
  -- `UPDATE jobs SET f WHERE p`: the rows after it.
  unfoldable pub update_rows : List JobRow → List JobRow
  update_rows [] = []
  update_rows (j ∷ js) = (if p j then f j else j) ∷ update_rows js

-- `UPDATE jobs SET f WHERE p`, with the number of rows affected.
unfoldable pub update_where : (JobRow → Bool) → (JobRow → JobRow) → Stmt ℕ
unfolding update_rows
update_where p f db = (count_of p db.rows, record db { rows = update_rows p f db.rows })

-- `DELETE FROM jobs WHERE p`
unfoldable pub delete_where : (JobRow → Bool) → Stmt ℕ
delete_where p db = (count_of p db.rows, record db { rows = keep (λ j. not (p j)) db.rows })

abbrev pub positive : ℕ × Jobs → Bool × Jobs
positive (n, db) = (ltb 0 n, db)

abbrev pub ignore : ℕ × Jobs → Unit {0} × Jobs
ignore (n, db) = (tt, db)
