-- ===== src/Worker/Tick/Start.antt =====
-- internal/job/job.go: one job of the batch of runEncodes.
use recodarr.Store.Jobs.Attempts.{count-claimable, claimable_row}
use recodarr.Store.Jobs.Invariant.{apply-IsWellFormed, IsWellFormed}
use recodarr.Store.Jobs.Updates.{find_id-update_rows, updated}
use recodarr.Store.Jobs.Marks.{
  max_job_attempts, claim_row, failed_row, claimable, mark_job_encoding, mark_job_failed,
}
use recodarr.Store.Jobs.Table.{update_where, is_status}
use recodarr.Store.Jobs.Queries.{get_job}
use recodarr.Store.Rows.{encoding, failed}
use recodarr.Prelude.{
  ltb, ◌&&◌, if◌then◌else◌, on_if, if_false, if_true, subst, ℕ, ◌≡◌, refl, sym, Bool, true, false,
  not, Text, [], Option, none, some, leb, ◌==◌, arith, Bool-cases, inl, inr,
}
use recodarr.Worker.Tick.{
  is_temp_path, ready, mark_job_encoding, mark_job_failed, Jobs, JobRow, TickState, try_start,
}
use recodarr.Store.Jobs.Ops.{apply, claim, fail}

-- A job that was not claimed five times and whose file is not a temporary one.
abbrev pub is_startable : JobRow → Bool
is_startable j = ltb j.attempts 5 && not (is_temp_path j.file_path)

get_job-claim :
    (now id other : ℕ) (db : Jobs)
    → get_job other (mark_job_encoding now id db).1
      ≡ updated (claimable id) (claim_row now) (get_job other db)
unfolding get_job mark_job_encoding update_where
get_job-claim now id other db =
    find_id-update_rows (claimable id) (claim_row now) (λ j. refl) other db.rows

get_job-fail :
    (now id other : ℕ) (msg log : Text) (db : Jobs)
    → get_job other (mark_job_failed now id msg log db).1
      ≡ updated (λ j. j.id == id) (failed_row now msg log) (get_job other db)
unfolding get_job mark_job_failed update_where
get_job-fail now id other msg log db =
    find_id-update_rows (λ j. j.id == id) (failed_row now msg log) (λ j. refl) other db.rows

mark_job_encoding-claimable :
    (now id : ℕ) (db : Jobs)
    → IsWellFormed db
    → (mark_job_encoding now id db).0 ≡ claimable_row id (get_job id db)
unfolding mark_job_encoding update_where get_job
mark_job_encoding-claimable now id db v = count-claimable id 0 db.rows v.ordered

module _ (st : TickState) (j : JobRow) (db : Jobs) where
  abbrev taken : Jobs
  taken = (mark_job_encoding st.now j.id db).1

  -- What holds of the table after the claim, and is kept when a job fails, holds after the body.
  pub try_start-keeps :
      (P : Jobs → Type 0)
      → P taken
      → ((msg : Text) → P (mark_job_failed st.now j.id msg [] taken).1)
      → P (try_start st j db).1
  unfolding try_start
  try_start-keeps P t f =
      on_if {A = Option JobRow × Jobs} (λ x. P x.1) (not (mark_job_encoding st.now j.id db).0)
        (on_if {A = Option JobRow × Jobs} (λ x. P x.1) (leb max_job_attempts j.attempts) (f _) t)
        (on_if {A = Option JobRow × Jobs} (λ x. P x.1) (is_temp_path j.file_path) (f _) t)

  -- The rows of other jobs stay.
  pub try_start-other :
      (other : ℕ)
      → (other == j.id) ≡ false
      → (k : JobRow) → k.id ≡ other
      → get_job other db ≡ some k
      → get_job other (try_start st j db).1 ≡ some k
  try_start-other other n k i h =
      let claimed = claim_other other n k i h in
      try_start-keeps (λ x. get_job other x ≡ some k) claimed
        (λ msg. ground (arith, get_job-fail st.now j.id other msg [] taken))
    where
      claim_other :
          (other : ℕ)
          → (other == j.id) ≡ false
          → (k : JobRow) → k.id ≡ other
          → get_job other db ≡ some k
          → get_job other taken ≡ some k
      claim_other other n k i h = ground (arith, get_job-claim st.now j.id other db)

  -- What one turn of the loop makes of its own job.
  pub record IsTried (x : Option JobRow × Jobs) : Type 0 where
    pub started : x.0 ≡ (if is_startable j then some j else none)
    pub row : JobRow
    pub found : get_job j.id x.1 ≡ some row
    pub same : row.id ≡ j.id
    pub outcome : row.status ≡ (if is_startable j then encoding else failed)

  refused :
      (msg : Text) (k : JobRow)
      → is_startable j ≡ false
      → k.id ≡ j.id
      → get_job j.id taken ≡ some k
      → IsTried (none, (mark_job_failed st.now j.id msg [] taken).1)
  refused msg k n i h = record {
    started = rw n refl;
    row = failed_row st.now msg [] k;
    found = rw (get_job-fail st.now j.id j.id msg [] taken, h) (ground (arith, i));
    same = i;
    outcome = rw n refl;
  }

  began :
      is_startable j ≡ true
      → get_job j.id taken ≡ some (claim_row st.now j)
      → IsTried (some j, taken)
  began y h = record {
    started = rw y refl;
    row = claim_row st.now j;
    found = h;
    same = refl;
    outcome = rw y refl;
  }

  module _ (h : get_job j.id db ≡ some j) (r : is_status j.status ready ≡ true)
      (v : IsWellFormed db) where
    claim_taken :
        (b : Bool) → claimable j.id j ≡ b → not (mark_job_encoding st.now j.id db).0 ≡ not b
    claim_taken b c = rw (mark_job_encoding-claimable st.now j.id db v, h, c) refl

    row_taken : claimable j.id j ≡ true → get_job j.id taken ≡ some (claim_row st.now j)
    row_taken c = rw (get_job-claim st.now j.id j.id db, h, c) refl

    row_left : claimable j.id j ≡ false → get_job j.id taken ≡ some j
    row_left c = rw (get_job-claim st.now j.id j.id db, h, c) refl

    -- A job of the batch is started or has failed when its turn is over.
    pub try_start-IsTried : IsTried (try_start st j db)
    unfolding try_start
    try_start-IsTried = elim (Bool-cases (ltb j.attempts 5)) [
      | inl a ↦
          let c : claimable j.id j ≡ true = ground (arith, a, r) in
          subst IsTried
            (sym (if_false (not (mark_job_encoding st.now j.id db).0) _ (claim_taken true c) refl))
            (elim (Bool-cases (is_temp_path j.file_path)) [
              | inl t ↦ subst IsTried (sym (if_true (is_temp_path j.file_path) _ t refl)) (
                  refused st.temp_file_text (claim_row st.now j) (ground (arith, t)) refl
                    (row_taken c))
              | inr t ↦
                  subst IsTried (sym (if_false (is_temp_path j.file_path) _ t refl))
                    (began (ground (arith, a, t)) (row_taken c))
            ])
      | inr a ↦
          let c : claimable j.id j ≡ false = ground (arith, a) in
          subst IsTried
            (sym (if_true (not (mark_job_encoding st.now j.id db).0) _ (claim_taken false c) refl))
            (subst IsTried
              (sym (if_true (leb max_job_attempts j.attempts) _ (ground (arith, a)) refl))
              (refused (st.attempts_text j.attempts) j (ground (arith, a)) refl (row_left c)))
    ]

  pub try_start-IsWellFormed : IsWellFormed db → IsWellFormed (try_start st j db).1
  unfolding apply
  try_start-IsWellFormed v =
      let claimed = apply-IsWellFormed st.now (claim j.id) db tt v in
      try_start-keeps IsWellFormed claimed
        (λ msg. apply-IsWellFormed st.now (fail j.id msg []) taken tt claimed)
