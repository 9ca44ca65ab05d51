-- ===== src/Store/Jobs/Invariant.antt =====
-- The well-formedness of the table `jobs`, kept by every statement.
use recodarr.Prelude.{
  ℕ, suc, ◌≤◌, ◌<◌, ◌≡◌, refl, Bool, true, false, not, List, [], ◌∷◌, arith, All, All-keep,
  All-append, All-imp, Option, none, some, if◌then◌else◌,
}
use recodarr.Store.Rows.{
  Status, waiting_for_seed, waiting_for_hardlink, ready, encoding, done, failed, skipped, JobRow,
}
use recodarr.Store.Jobs.Table.{Jobs, update_where, delete_where}
use recodarr.Store.Jobs.Marks.{max_job_attempts}
use recodarr.Store.Jobs.Edits.{insert_job, insert_row}
use recodarr.Store.Jobs.Updates.{
  Ascending, All-update_rows, Ascending-update_rows, Ascending-keep, Ascending-snoc,
}
use recodarr.Store.Jobs.Ops.{
  Op, remove, recover, retry_ids, remove_ids, remove_statuses, set_profiles, insert, apply, run,
  empty_jobs, is_waiting,
}

abbrev pub is_set : Option ℕ → Bool
is_set none = false
is_set (some t) = true

-- What the columns of a row say of each other, by its status.
abbrev pub ByStatus : Status → JobRow → Type 0
ByStatus waiting_for_seed j =
    (j.attempts ≡ 0)
    × (j.started_at ≡ none)
    × (j.finished_at ≡ none)
    × (j.original_size ≡ none)
    × (j.final_size ≡ none)
ByStatus waiting_for_hardlink j =
    (j.attempts ≡ 0)
    × (j.started_at ≡ none)
    × (j.finished_at ≡ none)
    × (j.original_size ≡ none)
    × (j.final_size ≡ none)
ByStatus ready j = (j.started_at ≡ none) × (j.finished_at ≡ none) × (j.final_size ≡ none)
ByStatus encoding j =
    (0 < j.attempts)
    × (is_set j.started_at ≡ true)
    × (j.finished_at ≡ none)
    × (j.original_size ≡ some j.file_size)
    × (j.final_size ≡ none)
ByStatus done j = (is_set j.finished_at ≡ true) × (is_set j.final_size ≡ true)
ByStatus failed j = is_set j.finished_at ≡ true
ByStatus skipped j = is_set j.finished_at ≡ true

pub record RowValid (j : JobRow) : Type 0 where
  pub bounded : j.attempts ≤ max_job_attempts
  pub by_status : ByStatus j.status j

pub record IsWellFormed (db : Jobs) : Type 0 where
  pub ordered : Ascending 0 db.rows
  pub fresh : All (λ j. j.id < db.next_id) db.rows
  pub valid : All RowValid db.rows

-- UPDATE and DELETE keep well-formedness if the new rows are valid.
update_where-IsWellFormed :
    (p : JobRow → Bool) (f : JobRow → JobRow) {db : Jobs}
    → ((j : JobRow) → (f j).id ≡ j.id)
    → ((j : JobRow) → RowValid j → p j ≡ true → RowValid (f j))
    → IsWellFormed db
    → IsWellFormed (update_where p f db).1
unfolding update_where
update_where-IsWellFormed p f {db} same step v = record {
  ordered = Ascending-update_rows p f same 0 db.rows v.ordered;
  fresh =
      All-update_rows (λ j. j.id < db.next_id) p f (λ j h _. omega (arith, same j)) db.rows v.fresh;
  valid = All-update_rows RowValid p f step db.rows v.valid;
}

delete_where-IsWellFormed :
    (p : JobRow → Bool) {db : Jobs} → IsWellFormed db → IsWellFormed (delete_where p db).1
unfolding delete_where
delete_where-IsWellFormed p {db} v = record {
  ordered = Ascending-keep (λ j. not (p j)) 0 db.rows v.ordered;
  fresh = All-keep (λ j. j.id < db.next_id) (λ j. not (p j)) db.rows v.fresh;
  valid = All-keep RowValid (λ j. not (p j)) db.rows v.valid;
}

pub insert_job-IsWellFormed :
    (now : ℕ) (r : JobRow) {db : Jobs}
    → is_waiting r.status ≡ true
    → IsWellFormed db
    → IsWellFormed (insert_job now r db).1
unfolding insert_job
insert_job-IsWellFormed now r {db} w v = record {
  ordered = Ascending-snoc (insert_row now db.next_id r) 0 db.rows v.ordered v.fresh (omega arith);
  fresh =
      All-append (λ j. j.id < suc db.next_id) db.rows (insert_row now db.next_id r ∷ [])
        (All-imp (λ j. j.id < db.next_id) (λ j. j.id < suc db.next_id) db.rows (λ j h. omega arith)
          v.fresh)
        (omega arith, tt);
  valid = All-append RowValid db.rows (insert_row now db.next_id r ∷ []) v.valid (ground arith, tt);
}

-- Jobs enter the table waiting.
abbrev pub EntersWaiting : Op → Type 0
EntersWaiting (insert r) = is_waiting r.status ≡ true
EntersWaiting _ = Unit

if-IsWellFormed :
    {A : Type 0} (b : Bool) (m n : A × Jobs)
    → IsWellFormed m.1
    → IsWellFormed n.1
    → IsWellFormed (if b then m else n).1
if-IsWellFormed true m n vm vn = vm
if-IsWellFormed false m n vm vn = vn

-- Every statement, on any arguments, keeps the table well-formed, if jobs enter it waiting.
pub apply-IsWellFormed :
    (now : ℕ) (op : Op) (db : Jobs)
    → EntersWaiting op
    → IsWellFormed db
    → IsWellFormed (apply now op db)
unfolding apply
apply-IsWellFormed now (insert r) db e v = insert_job-IsWellFormed now r e v
apply-IsWellFormed now (remove id) db e v = delete_where-IsWellFormed _ v
apply-IsWellFormed now (remove_ids ids) db e v =
    if-IsWellFormed _ _ _ v (delete_where-IsWellFormed _ v)
apply-IsWellFormed now (remove_statuses ss) db e v =
    if-IsWellFormed _ _ _ v (delete_where-IsWellFormed _ v)
apply-IsWellFormed now recover db e v =
    if-IsWellFormed _ _ _ v (update_where-IsWellFormed _ _ (λ j. refl) (λ j r t. ground arith) v)
apply-IsWellFormed now (retry_ids ids) db e v =
    if-IsWellFormed _ _ _ v (update_where-IsWellFormed _ _ (λ j. refl) (λ j r t. ground arith) v)
apply-IsWellFormed now (set_profiles ids pid) db e v =
    if-IsWellFormed _ _ _ v (update_where-IsWellFormed _ _ (λ j. refl) (λ j r t. ground arith) v)
apply-IsWellFormed now _ db e v =
    update_where-IsWellFormed _ _ (λ j. refl) (λ j r t. ground arith) v

abbrev pub AllEnterWaiting : List (ℕ × Op) → Type 0
AllEnterWaiting = All (λ step. EntersWaiting step.1)

-- From a well-formed table, any sequence of statements by which jobs enter waiting leads to a
-- well-formed table.
pub run-IsWellFormed :
    (ops : List (ℕ × Op)) (db : Jobs)
    → AllEnterWaiting ops
    → IsWellFormed db
    → IsWellFormed (run ops db)
unfolding run
run-IsWellFormed [] db e v = v
run-IsWellFormed ((now, op) ∷ ops) db e v =
    run-IsWellFormed ops (apply now op db) e.1 (apply-IsWellFormed now op db e.0 v)

pub empty_jobs-IsWellFormed : IsWellFormed empty_jobs
empty_jobs-IsWellFormed = record { ordered = tt; fresh = tt; valid = tt }
