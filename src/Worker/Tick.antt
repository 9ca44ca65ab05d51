-- ===== src/Worker/Tick.antt =====
-- internal/job/job.go: the tick of the worker, which releases waiting jobs and starts encodes. The
-- database does not fail here; what else is answered is an argument.
use recodarr.Prelude.Paths.{is_empty}
use recodarr.Store.Jobs.Queries.{jobs_by_status}
use recodarr.Handbrake.Temp.{is_temp_path}
use recodarr.Prelude.{
  to_lower, ℕ, zero, suc, ◌+◌, ◌-◌, ◌*◌, ◌/◌, ◌%◌, ◌≤◌, ◌<◌, ◌≡◌, ◌≢◌, refl, sym, ap, ◌∙◌, Bool,
  true, false, not, ◌&&◌, ◌||◌, Text, codes, text_eq, List, [], ◌∷◌, ◌++◌, Option, none, some,
  length, take, drop, keep, any_of, find_first, count_of, All, ltb, leb, ◌==◌, if◌then◌else◌, arith,
  Bool-cases, Option-cases, inl, inr, ◌⊎◌,
}
use recodarr.Store.Rows.{Status, JobRow, waiting_for_seed, waiting_for_hardlink, ready}
use recodarr.Store.Jobs.Table.{Jobs}
use recodarr.Store.Jobs.Marks.{
  mark_job_encoding, mark_job_failed, transition_job_status, max_job_attempts,
}
pub mod Capacity
pub mod Start
pub mod Progress

pub record TickState : Type 0 where
  pub now : ℕ
  pub encoding_paused : Bool
  pub in_window : Bool
  pub max_parallel_encodes : ℕ
  pub active_encodes : ℕ  -- len(w.encoding)
  pub attempts_text : ℕ → Text
  pub temp_file_text : Text

-- The body of the loop of runEncodes: the job, if its encode starts.
unfoldable pub try_start : TickState → JobRow → Jobs → Option JobRow × Jobs
unfolding mark_job_encoding mark_job_failed
try_start st j db =
    let (claimed, db1) = mark_job_encoding st.now j.id db in
    let gave_up = (mark_job_failed st.now j.id (st.attempts_text j.attempts) [] db1).1 in
    let refused = (mark_job_failed st.now j.id st.temp_file_text [] db1).1 in
    if not claimed
    then (if leb max_job_attempts j.attempts then (none, gave_up) else (none, db1))
    else if is_temp_path j.file_path
    then (none, refused)
    else (some j, db1)

unfoldable pub start_batch : TickState → List JobRow → Jobs → List JobRow × Jobs
unfolding try_start
start_batch st [] db = ([], db)
start_batch st (j ∷ js) db =
    let (started, db') = try_start st j db in
    let (rest, db'') = start_batch st js db' in
    elim started [ none ↦ (rest, db'') | some k ↦ (k ∷ rest, db'') ]

abbrev pub slots : TickState → ℕ
slots st =
    (if ltb st.max_parallel_encodes 1 then 1 else st.max_parallel_encodes) - st.active_encodes

unfoldable pub run_encodes : TickState → Jobs → List JobRow × Jobs
unfolding start_batch jobs_by_status
run_encodes st db =
    if st.encoding_paused || not st.in_window
    then ([], db)
    else if slots st == 0
    then ([], db)
    else start_batch st (jobs_by_status ready (slots st) db) db

unfoldable pub release : ℕ → Status → List JobRow → Jobs → Jobs
unfolding transition_job_status
release now from [] db = db
release now from (j ∷ js) db = release now from js (transition_job_status now j.id from ready db).1

abbrev pub seed_check_batch_limit : ℕ
seed_check_batch_limit = 5000

-- The jobs without a download, and those whose torrent qBittorrent does not hold; `held` is `none` if
-- it cannot be asked. Only the order of the releases differs from the code's.
unfoldable pub check_seeding : ℕ → Option (Text → Bool) → Jobs → Jobs
unfolding release jobs_by_status
check_seeding now held db =
    let jobs = jobs_by_status waiting_for_seed seed_check_batch_limit db in
    let released = release now waiting_for_seed (keep (λ j. is_empty j.download_id) jobs) db in
    elim held [
      | none ↦ released
      | some holds ↦
          release now waiting_for_seed
            (keep (λ j. not (is_empty j.download_id) && not (holds (to_lower j.download_id))) jobs)
            released
    ]

abbrev has_links : Option ℕ → Bool
has_links none = false
has_links (some n) = ltb 1 n

-- `links` is the number of hard links of a path, or `none` if it cannot be told.
unfoldable pub check_hardlinks : ℕ → (Text → Option ℕ) → Jobs → Jobs
unfolding release jobs_by_status
check_hardlinks now links db =
    release now waiting_for_hardlink
      (keep (λ j. not (has_links (links j.file_path)))
        (jobs_by_status waiting_for_hardlink seed_check_batch_limit db))
      db

unfoldable pub tick :
    TickState → Option (Text → Bool) → (Text → Option ℕ) → Jobs → List JobRow × Jobs
unfolding check_seeding check_hardlinks run_encodes
tick st held links db = run_encodes st (check_hardlinks st.now links (check_seeding st.now held db))
