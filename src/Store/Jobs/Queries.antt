-- ===== src/Store/Jobs/Queries.antt =====
-- internal/store/queries.go: the queries on the table `jobs`, which change nothing.
use recodarr.Prelude.{
  ℕ, ◌+◌, Text, text_eq, Bool, not, ◌&&◌, Option, none, some, List, [], ◌∷◌, take, keep, find_first,
  count_of, ltb, ◌==◌, if◌then◌else◌,
}
use recodarr.Store.Rows.{
  Status, waiting_for_seed, waiting_for_hardlink, ready, encoding, done, failed, skipped, JobRow,
  JobStatsRow,
}
use recodarr.Store.Jobs.Table.{Jobs, is_status, is_finished}

unfoldable pub get_job : ℕ → Jobs → Option JobRow
get_job id db = find_first (λ j. j.id == id) db.rows

abbrev pub same_item : Text → ℕ → ℕ → JobRow → Bool
same_item kind instance_id item_id j =
    text_eq j.arr_kind kind && (j.arr_instance_id == instance_id && j.arr_item_id == item_id)

unfoldable pub has_active_job : Text → ℕ → ℕ → Jobs → Bool
has_active_job kind instance_id item_id db =
    ltb 0
      (count_of (λ j. same_item kind instance_id item_id j && not (is_finished j.status)) db.rows)

unfoldable pub has_job_for_item : Text → ℕ → ℕ → Jobs → Bool
has_job_for_item kind instance_id item_id db =
    ltb 0 (count_of (same_item kind instance_id item_id) db.rows)

unfoldable pub jobs_by_status : Status → ℕ → Jobs → List JobRow
jobs_by_status s limit db = take limit (keep (λ j. is_status j.status s) db.rows)

-- original_size and final_size of a row that counts in the sum, else 0.
abbrev saved_of : JobRow → ℕ × ℕ
saved_of j =
    if is_status j.status done
    then (elim j.original_size [
      | none ↦ (0, 0)
      | some a ↦ elim j.final_size [ none ↦ (0, 0) | some b ↦ (a, b) ]
    ])
    else (0, 0)

abbrev saved_total : List JobRow → ℕ × ℕ
saved_total [] = (0, 0)
saved_total (j ∷ js) = ((saved_of j).0 + (saved_total js).0, (saved_of j).1 + (saved_total js).1)

-- The sum of the differences may be negative: it is kept as the two sums to be subtracted.
unfoldable pub get_job_stats : Jobs → JobStatsRow
get_job_stats db = record {
  waiting_for_seed_n = n waiting_for_seed;
  waiting_for_hardlink_n = n waiting_for_hardlink;
  ready_n = n ready;
  encoding_n = n encoding;
  done_n = n done;
  failed_n = n failed;
  skipped_n = n skipped;
  total_saved_bytes = saved_total db.rows;
}
  where
    n : Status → ℕ
    n s = count_of (λ j. is_status j.status s) db.rows
