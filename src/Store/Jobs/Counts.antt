-- ===== src/Store/Jobs/Counts.antt =====
-- Properties of the queries: the statistics, the batches of the worker, the duplicate check.
use recodarr.Prelude.{
  ℕ, suc, ◌+◌, ◌≡◌, refl, Bool, true, List, [], ◌∷◌, ◌++◌, arith, All, keep, length, length-take,
  take, if◌then◌else◌, Text, count_of, min,
}
use recodarr.Store.Rows.{
  Status, waiting_for_seed, waiting_for_hardlink, ready, encoding, done, failed, skipped, JobRow,
  JobStatsRow,
}
use recodarr.Store.Jobs.Table.{Jobs, is_status}
use recodarr.Store.Jobs.Edits.{insert_row, insert_job}
use recodarr.Store.Jobs.Queries.{get_job_stats, jobs_by_status, has_job_for_item, same_item}

abbrev with_status : Status → List JobRow → ℕ
with_status s = count_of (λ j. is_status j.status s)

statuses_partition :
    (js : List JobRow)
    → with_status waiting_for_seed js
        + with_status waiting_for_hardlink js
        + with_status ready js
        + with_status encoding js
        + with_status done js
        + with_status failed js
        + with_status skipped js
      ≡ length js
statuses_partition [] = omega arith
statuses_partition (j ∷ js) = ground (arith, statuses_partition js)

abbrev pub total_of : JobStatsRow → ℕ
total_of r =
    r.waiting_for_seed_n + r.waiting_for_hardlink_n + r.ready_n + r.encoding_n + r.done_n
    + r.failed_n + r.skipped_n

-- The counts of the statistics add up to the number of jobs: each job is counted once.
pub total_of-get_job_stats : (db : Jobs) → total_of (get_job_stats db) ≡ length db.rows
unfolding get_job_stats
total_of-get_job_stats db = statuses_partition db.rows

All-take : {A : Type 0} (P : A → Type 0) (n : ℕ) (xs : List A) → All P xs → All P (take n xs)
All-take P ℕ.zero xs h = tt
All-take P (suc n) [] h = tt
All-take P (suc n) (x ∷ xs) h = (h.0, All-take P n xs h.1)

keep-passes : {A : Type 0} (p : A → Bool) (xs : List A) → All (λ x. p x ≡ true) (keep p xs)
keep-passes p [] = tt
keep-passes p (x ∷ xs) = ground (arith, keep-passes p xs)

keep-length : {A : Type 0} (p : A → Bool) (xs : List A) → length (keep p xs) ≡ count_of p xs
keep-length p [] = refl
keep-length p (x ∷ xs) = ground (arith, keep-length p xs)

-- A batch of jobs by status holds jobs of that status only, as many as the limit allows and the table
-- holds.
pub jobs_by_status_lem :
    (s : Status) (limit : ℕ) (db : Jobs)
    → All (λ j. is_status j.status s ≡ true) (jobs_by_status s limit db)
      × (length (jobs_by_status s limit db) ≡ min limit (with_status s db.rows))
unfolding jobs_by_status
jobs_by_status_lem s limit db = (
  All-take (λ j. is_status j.status s ≡ true) limit (keep (λ j. is_status j.status s) db.rows)
      (keep-passes (λ j. is_status j.status s) db.rows),
  omega (
    arith,
    length-take limit (keep (λ j. is_status j.status s) db.rows),
    keep-length (λ j. is_status j.status s) db.rows,
  ),
)

count_of-append :
    {A : Type 0} (p : A → Bool) (xs ys : List A)
    → count_of p (xs ++ ys) ≡ count_of p xs + count_of p ys
count_of-append p [] ys = omega arith
count_of-append p (x ∷ xs) ys = ground (arith, count_of-append p xs ys)

-- After a job was inserted, the duplicate check finds the item of that job, and says of any other item
-- what it said before.
pub has_job_for_item-insert_job :
    (now : ℕ) (r : JobRow) (kind : Text) (instance_id item_id : ℕ) (db : Jobs)
    → has_job_for_item kind instance_id item_id (insert_job now r db).1 ≡ (
        if same_item kind instance_id item_id r
        then true
        else has_job_for_item kind instance_id item_id db)
unfolding has_job_for_item insert_job
has_job_for_item-insert_job now r kind instance_id item_id db = ground (
  arith,
  count_of-append (same_item kind instance_id item_id) db.rows (insert_row now db.next_id r ∷ []),
)
