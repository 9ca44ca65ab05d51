-- ===== src/Api/Jobs.antt =====
-- internal/api/admin.go: the handlers of the jobs. A request gives the parameters of its address.
use recodarr.Prelude.{
  trim_space, map, ℕ, zero, suc, Bool, true, false, not, Text, codes, text_eq, List, [], ◌∷◌,
  Option, none, some, if◌then◌else◌,
}
use recodarr.Api.{Answer}
use recodarr.Prelude.Paths.{is_empty, split_by}
use recodarr.Prelude.Numbers.{atoi}
use recodarr.Prelude.Int.{ℤ, pos, negsuc}
use recodarr.Store.Rows.{JobRow, encoding, JobStatsRow}
use recodarr.Store.Jobs.Table.{Jobs, is_status}
use recodarr.Store.Jobs.Queries.{get_job, get_job_stats}
use recodarr.Store.Jobs.Edits.{
  retry_job, retry_all_failed, retry_jobs_by_ids, delete_job, delete_terminal_jobs,
  delete_jobs_by_ids, set_jobs_profile,
}
use recodarr.Store.Jobs.Listing.{JobListOptions, list_jobs, page_limit}

-- `splitNonEmpty`: the parts between commas, trimmed, without the empty ones.
abbrev trimmed_parts : List Text → List Text
trimmed_parts [] = []
trimmed_parts (p ∷ ps) =
    let q = trim_space p in if is_empty q then trimmed_parts ps else q ∷ trimmed_parts ps

unfoldable pub split_non_empty : Text → List Text
split_non_empty s = if is_empty s then [] else trimmed_parts (split_by b',' s)

-- A number of the address; the bounds are at or above 0, so a negative one counts as 0.
abbrev natural : ℤ × Bool → ℕ
natural (pos n, true) = n
natural (pos n, false) = 0
natural (negsuc n, b) = 0

pub record ListQuery : Type 0 where
  pub status : Text
  pub kind : Text
  pub profile : Text
  pub q : Text
  pub limit : Text
  pub offset : Text
  pub order : Text
  pub sort : Text

unfoldable pub options_of : ListQuery → JobListOptions
unfolding split_non_empty
options_of r = record {
  statuses = split_non_empty r.status;
  kinds = split_non_empty r.kind;
  profile = natural (atoi r.profile);
  search = r.q;
  limit = natural (atoi r.limit);
  offset = natural (atoi r.offset);
  ascending = text_eq r.order (codes "asc");
  sort_key = r.sort;
}

pub record JobsPage : Type 0 where
  pub total : ℕ
  pub limit : ℕ
  pub offset : ℕ
  pub jobs : List JobRow

-- The source of a job that has none is shown as `poll`.
unfoldable pub row_to_job_dto : JobRow → JobRow
row_to_job_dto j = if is_empty j.source then record j { source = codes "poll" } else j

unfoldable pub list_jobs_handler : ListQuery → Jobs → Answer JobsPage
unfolding options_of list_jobs row_to_job_dto
list_jobs_handler r db =
    let o = options_of r in
    let (rows, total) = list_jobs o db in
    (
      200,
      some (record {
        total = total;
        limit = page_limit o.limit;
        offset = o.offset;
        jobs = map row_to_job_dto rows;
      }),
    )

unfoldable pub stats_handler : Jobs → Answer JobStatsRow
unfolding get_job_stats
stats_handler db = (200, some (get_job_stats db))

unfoldable pub retry_all_handler : ℕ → Jobs → Answer ℕ × Jobs
unfolding retry_all_failed
retry_all_handler now db = let (n, db') = retry_all_failed now db in ((200, some n), db')

abbrev shown : Option JobRow → Answer JobRow
shown none = (204, none)
shown (some j) = (200, some (row_to_job_dto j))

unfoldable pub retry_job_handler : ℕ → Option ℕ → Jobs → Answer JobRow × Jobs
unfolding retry_job get_job row_to_job_dto
retry_job_handler now none db = ((400, none), db)
retry_job_handler now (some i) db =
    let (done, db') = retry_job now i db in (shown (get_job i db'), db')

-- `CancelEncoding` of the worker tells whether the job runs there.
abbrev cancel_code : (ℕ → Bool) → ℕ → Option JobRow → ℕ × Bool
cancel_code runs i none = (404, false)
cancel_code runs i (some j) =
    if not (is_status j.status encoding)
    then (409, false)
    else if runs i
    then (200, true)
    else (409, false)

-- The code, and whether the encode is cancelled.
unfoldable pub cancel_job_handler : (ℕ → Bool) → Option ℕ → Jobs → ℕ × Bool
unfolding get_job
cancel_job_handler runs none db = (400, false)
cancel_job_handler runs (some i) db = cancel_code runs i (get_job i db)

unfoldable pub delete_job_handler : Option ℕ → Jobs → ℕ × Jobs
unfolding delete_job
delete_job_handler none db = (400, db)
delete_job_handler (some i) db = (204, (delete_job i db).1)

unfoldable pub delete_terminal_handler : Text → Jobs → Answer ℕ × Jobs
unfolding split_non_empty delete_terminal_jobs
delete_terminal_handler statuses db =
    let (n, db') = delete_terminal_jobs (split_non_empty statuses) db in ((200, some n), db')

unfoldable pub bulk_delete_handler : Option (List ℕ) → Jobs → Answer ℕ × Jobs
unfolding delete_jobs_by_ids
bulk_delete_handler none db = ((400, none), db)
bulk_delete_handler (some ids) db = let (n, db') = delete_jobs_by_ids ids db in ((200, some n), db')

unfoldable pub bulk_retry_handler : ℕ → Option (List ℕ) → Jobs → Answer ℕ × Jobs
unfolding retry_jobs_by_ids
bulk_retry_handler now none db = ((400, none), db)
bulk_retry_handler now (some ids) db =
    let (n, db') = retry_jobs_by_ids now ids db in ((200, some n), db')

-- A profile that is not positive takes the profile away.
abbrev profile_or_null : ℤ → Option ℕ
profile_or_null (pos zero) = none
profile_or_null (pos (suc n)) = some (suc n)
profile_or_null (negsuc n) = none

unfoldable pub bulk_set_profile_handler : ℕ → Option (List ℕ × ℤ) → Jobs → Answer ℕ × Jobs
unfolding set_jobs_profile
bulk_set_profile_handler now none db = ((400, none), db)
bulk_set_profile_handler now (some (ids, profile)) db =
    let (n, db') = set_jobs_profile now ids (profile_or_null profile) db in ((200, some n), db')
