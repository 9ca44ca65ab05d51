-- ===== src/Tests/Jobs.antt =====
-- The theorems on the table of jobs at concrete tables.
use recodarr.Store.Jobs.Lifecycle.{apply-follows, Origin}
use recodarr.Store.Jobs.Attempts.{claims-le-max, claims}
use recodarr.Store.Rows.{encoding, ready}
use recodarr.Store.Jobs.Claims.{claim_twice}
use recodarr.Store.Jobs.Edits.{insert_job}
use recodarr.Tests.{sample_job}
use recodarr.Store.Jobs.Invariant.{
  apply-IsWellFormed, empty_jobs-IsWellFormed, run-IsWellFormed, IsWellFormed, AllEnterWaiting,
}
use recodarr.Store.Jobs.Table.{Jobs}
use recodarr.Store.Jobs.Marks.{max_job_attempts, transition_job_status, mark_job_encoding}
use recodarr.Store.Jobs.Queries.{get_job}
use recodarr.Store.Jobs.Ops.{claim, seed_gone, apply, empty_jobs, insert, run, Op}
use recodarr.Prelude.{ℕ, ◌≤◌, ◌≡◌, refl, false, codes, List, [], ◌∷◌, some, arith}

abbrev one_job : Jobs
one_job = record { rows = record sample_job { id = 1; status = ready } ∷ []; next_id = 2 }

abbrev inserts : List (ℕ × Op)
inserts = (10, insert sample_job) ∷ (11, insert sample_job) ∷ (12, seed_gone 1) ∷ []

abbrev stored : Jobs
stored = run inserts empty_jobs

inserts_wait : AllEnterWaiting inserts
inserts_wait = (refl, (refl, (tt, tt)))

stored-IsWellFormed : IsWellFormed stored
stored-IsWellFormed = run-IsWellFormed inserts empty_jobs inserts_wait empty_jobs-IsWellFormed

apply-IsWellFormed_example : IsWellFormed (apply 20 (claim 1) stored)
apply-IsWellFormed_example = apply-IsWellFormed 20 (claim 1) stored tt stored-IsWellFormed

claim_twice_example : (mark_job_encoding 6 1 (mark_job_encoding 5 1 one_job).1).0 ≡ false
claim_twice_example = claim_twice 5 6 1 one_job

claims-le-max_example : claims 1 ((20, claim 1) ∷ (21, claim 1) ∷ []) stored ≤ max_job_attempts
unfolding run apply insert_job transition_job_status
claims-le-max_example =
    claims-le-max 1 ((20, claim 1) ∷ (21, claim 1) ∷ []) stored (refl, (refl, tt)) (tt, (tt, tt))
      stored-IsWellFormed (omega arith)

apply-follows_example : Origin (get_job 1 stored) (record sample_job {
  id = 1;
  status = encoding;
  attempts = 1;
  original_size = some 1000;
  tags = codes "[]";
  created_at = 10;
  started_at = some 20;
  updated_at = 20;
})
unfolding run apply insert_job transition_job_status mark_job_encoding get_job
apply-follows_example = apply-follows 20 1 (claim 1) stored _ refl stored-IsWellFormed refl
