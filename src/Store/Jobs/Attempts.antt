-- ===== src/Store/Jobs/Attempts.antt =====
-- How often one job can be encoded: the claims of a job between two resets of its attempts.
use recodarr.Prelude.{
  ℕ, suc, ◌+◌, ◌≤◌, ◌<◌, ◌≡◌, refl, Bool, true, false, not, ◌&&◌, List, [], ◌∷◌, arith, All, keep,
  Option, none, some, ◌==◌, ltb, if◌then◌else◌, Option-cases, Bool-cases, ==_iff, inl, inr,
  count_of,
}
use recodarr.Store.Rows.{encoding, JobRow}
use recodarr.Store.Jobs.Table.{Jobs, is_status, id_in, update_rows}
use recodarr.Store.Jobs.Marks.{
  mark_job_encoding, claim_row, claimable, recover_row, max_job_attempts,
}
use recodarr.Store.Jobs.Edits.{insert_row, is_terminal_deletable, or_finished, status_in}
use recodarr.Store.Jobs.Updates.{
  Ascending, find_id, find_id-update_rows, find_id-keep, find_id-snoc,
}
use recodarr.Store.Jobs.Invariant.{
  IsWellFormed, apply-IsWellFormed, run-IsWellFormed, AllEnterWaiting, RowValid,
}
use recodarr.Store.Jobs.Ops.{
  Op, claim, requeue, retry, remove, recover, retry_failed, retry_ids, remove_ids, remove_statuses,
  set_profiles, insert, apply, run,
}

-- The attempts that a job has used; a job that is gone can use no more.
abbrev pub spent : Option JobRow → ℕ
spent none = max_job_attempts
spent (some j) = j.attempts

-- Operations that give attempts back.
abbrev pub resets : Op → Bool
resets (requeue id) = true
resets (retry id) = true
resets retry_failed = true
resets (retry_ids ids) = true
resets _ = false

-- 1 if the operation is a claim of the job that succeeds.
abbrev gain : ℕ → ℕ → Op → Jobs → ℕ
gain id now (claim k) db = if k == id && (mark_job_encoding now k db).0 then 1 else 0
gain id now _ db = 0

-- The successful claims of the job in a run.
pub claims : ℕ → List (ℕ × Op) → Jobs → ℕ
claims id [] db = 0
claims id ((now, op) ∷ ops) db = gain id now op db + claims id ops (apply now op db)

count-absent :
    (id lo : ℕ) (js : List JobRow) → id < lo → Ascending lo js → count_of (claimable id) js ≡ 0
count-absent id lo [] h a = refl
count-absent id lo (j ∷ js) h a = ground (arith, count-absent id (suc j.id) js)

abbrev pub claimable_row : ℕ → Option JobRow → Bool
claimable_row id none = false
claimable_row id (some j) = claimable id j

-- A claim succeeds exactly if the row of the id can be claimed.
pub count-claimable :
    (id lo : ℕ) (js : List JobRow)
    → Ascending lo js
    → ltb 0 (count_of (claimable id) js) ≡ claimable_row id (find_id id js)
count-claimable id lo [] a = refl
count-claimable id lo (j ∷ js) a =
    ground (arith, count-claimable id (suc j.id) js, count-absent id (suc j.id) js)

spent-update :
    (p : JobRow → Bool) (f : JobRow → JobRow)
    → ((j : JobRow) → (f j).id ≡ j.id)
    → ((j : JobRow) → j.attempts ≤ (f j).attempts)
    → (id : ℕ) (js : List JobRow) → spent (find_id id js) ≤ spent (find_id id (update_rows p f js))
spent-update p f same more id js = elim (Option-cases (find_id id js)) [
  | inl e ↦ rw (find_id-update_rows p f same id js, e) (omega arith)
  | inr (j, e) ↦ rw (find_id-update_rows p f same id js, e) (ground (arith, more j))
]

find_id-valid :
    (id : ℕ) (js : List JobRow) → All RowValid js → spent (find_id id js) ≤ max_job_attempts
find_id-valid id [] v = omega arith
find_id-valid id (j ∷ js) v = ground (arith, find_id-valid id js)

spent-keep :
    (p : JobRow → Bool) (id : ℕ) (js : List JobRow)
    → Ascending 0 js
    → All RowValid js
    → spent (find_id id js) ≤ spent (find_id id (keep p js))
spent-keep p id js a v = rw (find_id-keep p id 0 js a) (ground (arith, find_id-valid id js v))

abbrev used : ℕ → Jobs → ℕ
used id db = spent (find_id id db.rows)

-- An operation that is no reset gives no attempt back.
used-apply :
    (id now : ℕ) (op : Op) (db : Jobs)
    → resets op ≡ false
    → IsWellFormed db
    → id < db.next_id
    → used id db ≤ used id (apply now op db)
unfolding apply
used-apply id now (requeue k) db r v b = cc
used-apply id now (retry k) db r v b = cc
used-apply id now retry_failed db r v b = cc
used-apply id now (retry_ids ks) db r v b = cc
used-apply id now (insert row) db r v b =
    rw (find_id-snoc id (insert_row now db.next_id row) db.rows b) (omega arith)
used-apply id now (remove k) db r v b = spent-keep _ id db.rows v.ordered v.valid
used-apply id now (remove_ids ks) db r v b =
    ground
      (arith, spent-keep (λ j. not (id_in ks j.id && not (is_status j.status encoding))) id db.rows)
used-apply id now (remove_statuses ss) db r v b = ground (
  arith,
  spent-keep (λ j. not (status_in (keep is_terminal_deletable (or_finished ss)) j.status)) id
      db.rows,
)
used-apply id now recover db r v b = ground (
  arith,
  spent-update (λ j. is_status j.status encoding) (recover_row now) (λ j. refl) (λ j. omega arith)
      id db.rows,
)
used-apply id now (set_profiles ks pid) db r v b = ground (
  arith,
  spent-update (λ j. id_in ks j.id && not (is_status j.status encoding))
      (λ j. record j { profile_id = pid; updated_at = now }) (λ j. refl) (λ j. omega arith) id
      db.rows,
)
used-apply id now _ db r v b = spent-update _ _ (λ j. refl) (λ j. omega arith) id db.rows

-- A successful claim uses one.
used-claim :
    (id now : ℕ) (db : Jobs)
    → IsWellFormed db
    → (if (mark_job_encoding now id db).0 then 1 else 0) + used id db
      ≤ used id (apply now (claim id) db)
unfolding mark_job_encoding apply
used-claim id now db v = ground (
  arith,
  count-claimable id 0 db.rows v.ordered,
  find_id-update_rows (claimable id) (claim_row now) (λ j. refl) id db.rows,
)

next_id-apply : (now : ℕ) (op : Op) (db : Jobs) → db.next_id ≤ (apply now op db).next_id
unfolding apply
next_id-apply now (insert r) db = omega arith
next_id-apply now (remove_ids ks) db = ground arith
next_id-apply now (remove_statuses ss) db = ground arith
next_id-apply now recover db = ground arith
next_id-apply now (set_profiles ks pid) db = ground arith
next_id-apply now (retry_ids ks) db = ground arith
next_id-apply now _ db = omega arith

gain-apply :
    (id now : ℕ) (op : Op) (db : Jobs)
    → resets op ≡ false
    → IsWellFormed db
    → id < db.next_id
    → gain id now op db + used id db ≤ used id (apply now op db)
gain-apply id now (claim k) db r v b = elim (Bool-cases (k == id)) [
  | inl same ↦ let e : k ≡ id = (==_iff k id).0 same in rw same (rw e (used-claim id now db v))
  | inr other ↦ rw other (omega (arith, used-apply id now (claim k) db r v b))
]
gain-apply id now op db r v b = omega (arith, used-apply id now op db r v b)

abbrev pub NoReset : List (ℕ × Op) → Type 0
NoReset = All (λ step. resets step.1 ≡ false)

claims-run :
    (id : ℕ) (ops : List (ℕ × Op)) (db : Jobs)
    → NoReset ops
    → AllEnterWaiting ops
    → IsWellFormed db
    → id < db.next_id
    → claims id ops db + used id db ≤ used id (run ops db)
unfolding claims run
claims-run id [] db r e v b = omega arith
claims-run id ((now, op) ∷ ops) db r e v b = omega (
  arith,
  gain-apply id now op db r.0 v b,
  claims-run id ops (apply now op db) r.1 e.1 (apply-IsWellFormed now op db e.0 v)
      (omega (arith, next_id-apply now op db)),
)

-- From a well-formed table, in any run of statements without a requeue or a retry, a job that is in
-- the table or was deleted from it is claimed successfully at most `max_job_attempts` times.
pub claims-le-max :
    (id : ℕ) (ops : List (ℕ × Op)) (db : Jobs)
    → NoReset ops
    → AllEnterWaiting ops
    → IsWellFormed db
    → id < db.next_id
    → claims id ops db ≤ max_job_attempts
claims-le-max id ops db r e v b = omega (
  arith,
  claims-run id ops db r e v b,
  find_id-valid id (run ops db).rows (run-IsWellFormed ops db e v).valid,
)
