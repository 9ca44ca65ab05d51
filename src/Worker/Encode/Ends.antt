-- ===== src/Worker/Encode/Ends.antt =====
-- internal/job/job.go: the job after an encode.
use recodarr.Worker.Guard.Termination.{encode_loop_total}
use recodarr.Worker.Encode.{
  attempt_stmt, notify, reresolve_profile, first_try, check_disk_space, audio_rates, filtered,
  profile_lookup, evaluate_filters, plan_of, no_profile, update_job_profile, encode_with_profile,
  encode_one, encode_resolved, encode_with, is_empty, encoded, failed_with, kept, End, Plan,
  conclude, refresh_arr, write_sidecar, skip_job, World, Reason, fail_job,
}
use recodarr.Store.Jobs.Updates.{find_id-update_rows, find_id}
use recodarr.Store.Jobs.Edits.{update_job_profile}
use recodarr.Worker.Situation.{Situation}
use recodarr.Store.Jobs.Table.{Stmt, is_status, update_where, Jobs}
use recodarr.Store.Rows.{ProfileRow, encoding, JobRow}
use recodarr.Store.Jobs.Queries.{get_job}
use recodarr.Store.Jobs.Marks.{
  done_row, mark_job_done, set_refresh_error, skipped_row, requeue_row, mark_job_skipped,
  failed_row, mark_job_failed, requeue_encoding,
}
use recodarr.Prelude.{
  subst, ℕ, ◌+◌, ◌≡◌, refl, sym, Bool, true, false, not, ◌&&◌, Text, codes, List, [], ◌∷◌, Option,
  none, some, ◌==◌, if◌then◌else◌, arith, Bool-cases, inl, inr,
}

-- The job is in the table, and is not being encoded.
pub record Ended (id : ℕ) (db : Jobs) : Type 0 where
  pub row : JobRow
  pub found : get_job id db ≡ some row
  pub idle : is_status row.status encoding ≡ false

-- The job is in the table.
pub record Present (id : ℕ) (db : Jobs) : Type 0 where
  pub row : JobRow
  pub found : get_job id db ≡ some row

find_id-id : (id : ℕ) (js : List JobRow) (j : JobRow) → find_id id js ≡ some j → (j.id == id) ≡ true
find_id-id id [] j h = cc
find_id-id id (k ∷ js) j h = ground (arith, find_id-id id js j)

-- An UPDATE of the row of one id.
get_job-update :
    (id : ℕ) (f : JobRow → JobRow) (db : Jobs) (j : JobRow)
    → ((k : JobRow) → (f k).id ≡ k.id)
    → get_job id db ≡ some j
    → get_job id (update_where (λ k. k.id == id) f db).1 ≡ some (f j)
unfolding get_job update_where
get_job-update id f db j same h =
    ground
      (arith, find_id-update_rows (λ k. k.id == id) f same id db.rows, find_id-id id db.rows j h)

-- The row of the job after a requeue.
abbrev requeued : ℕ → JobRow → JobRow
requeued now j = if is_status j.status encoding then requeue_row now j else j

requeued-idle : (now : ℕ) (j : JobRow) → is_status (requeued now j).status encoding ≡ false
requeued-idle now j = elim (Bool-cases (is_status j.status encoding)) [
  | inl h ↦ rw h refl
  | inr h ↦ rw h h
]

requeue-Ended : (now id : ℕ) (db : Jobs) → Present id db → Ended id (requeue_encoding now id db).1
unfolding requeue_encoding update_where get_job
requeue-Ended now id db v = record {
  row = requeued now v.row;
  found = ground (
    arith,
    find_id-update_rows (λ k. k.id == id && is_status k.status encoding) (requeue_row now)
        (λ k. refl) id db.rows,
    find_id-id id db.rows v.row v.found,
  );
  idle = requeued-idle now v.row;
}

skip-Ended :
    (now id : ℕ) (e : Text) (db : Jobs) → Present id db → Ended id (mark_job_skipped now id e db).1
unfolding mark_job_skipped
skip-Ended now id e db v = record {
  row = skipped_row now e v.row;
  found = get_job-update id (skipped_row now e) db v.row (λ k. refl) v.found;
  idle = refl;
}

refresh-Ended :
    (now id : ℕ) (e : Text) (db : Jobs) → Ended id db → Ended id (set_refresh_error now id e db).1
unfolding set_refresh_error
refresh-Ended now id e db v = record {
  row = record v.row { refresh_error = e; updated_at = now };
  found =
      get_job-update id (λ j. record j { refresh_error = e; updated_at = now }) db v.row (λ k. refl)
        v.found;
  idle = v.idle;
}

done-Ended :
    (now id size : ℕ) (db : Jobs) → Present id db → Ended id (mark_job_done now id size db).1
unfolding mark_job_done
done-Ended now id size db v = record {
  row = done_row now size v.row;
  found = get_job-update id (done_row now size) db v.row (λ k. refl) v.found;
  idle = refl;
}

-- What both branches of a test have.
on_both {ℓ} : (P : World → Type ℓ) (b : Bool) {x y : World} → P x → P y → P (if b then x else y)
on_both P true a b = a
on_both P false a b = b

-- What every case of an optional answer has.
on_option {ℓ ℓ'} :
    {A : Type ℓ} (P : World → Type ℓ') (o : Option A) {x : World} {f : A → World}
    → P x
    → ((a : A) → P (f a))
    → P (elim o [ none ↦ x | some a ↦ f a ])
on_option P none p q = p
on_option P (some a) p q = q a

module _ (env : Situation) (j : JobRow) (marks : env.mark_fails ≡ false) where
  abbrev IsEnded : World → Type 0
  IsEnded w = Ended j.id w.db

  attempt-Ended :
      (s : Stmt (Unit {0})) (w : World)
      → Ended j.id (s w.db).1
      → IsEnded (attempt_stmt env.mark_fails s w)
  attempt-Ended s w v = subst (λ m. IsEnded (attempt_stmt m s w)) (sym marks) v

  fail_job-Ended :
      (reason : Reason) (log : Text) (w : World)
      → Present j.id w.db
      → Ended j.id (fail_job env j.id reason log w).db
  unfolding fail_job mark_job_failed
  fail_job-Ended reason log w v = rw marks (record {
    row = failed_row env.now (env.text_of reason) log v.row;
    found =
        get_job-update j.id (failed_row env.now (env.text_of reason) log) w.db v.row (λ k. refl)
          v.found;
    idle = refl;
  })

  sidecar_keeps_db : (w : World) → (write_sidecar env j w).db ≡ w.db
  sidecar_keeps_db w = ground arith

  skip_job-Ended :
      (reason : Reason) (w : World) → Present j.id w.db → Ended j.id (skip_job env j reason w).db
  unfolding skip_job
  skip_job-Ended reason w v =
      rw (sidecar_keeps_db _, marks) (skip-Ended env.now j.id (env.text_of reason) w.db v)

  refresh_arr-Ended : (w : World) → Ended j.id w.db → Ended j.id (refresh_arr env j w).db
  unfolding refresh_arr
  refresh_arr-Ended w v = on_both IsEnded (j.arr_parent_id == 0) v (
      on_both IsEnded (not env.instance_found) v
        (on_both IsEnded _ v (attempt-Ended _ w (refresh-Ended env.now j.id _ w.db v))))

  conclude-Ended :
      (plan : Plan) (end : End) (w : World)
      → Present j.id w.db
      → Ended j.id (conclude env j plan end w).db
  unfolding conclude
  conclude-Ended plan (kept final t) w v = skip_job-Ended _ w v
  conclude-Ended plan (failed_with r e t) w v =
      on_both IsEnded (env.requeue_asked && env.cancelled_ctx)
        (attempt-Ended _ w (requeue-Ended env.now j.id w.db v))
        (fail_job-Ended _ _ _ (on_both (λ x. Present j.id x.db) (is_empty r.temp_path_of) v v))
  conclude-Ended plan (encoded r t) w v =
      subst
        (λ b. IsEnded (
          if b
          then w
          else refresh_arr env j (
              notify (codes "done") r.final_size (
                write_sidecar env j
                  (attempt_stmt env.mark_fails (mark_job_done env.now j.id r.final_size) w)))))
        (sym marks)
        (refresh_arr-Ended _
          (rw (sidecar_keeps_db _, marks) (done-Ended env.now j.id r.final_size w.db v)))

  encode_with-Ended :
      (p : ProfileRow) (w : World) → Present j.id w.db → Ended j.id (encode_with env j p w).db
  unfolding encode_with
  encode_with-Ended p w v =
      let plan = plan_of p in
      let (end, fs, h, _) =
        encode_loop_total env.encoder_of p (audio_rates env p) plan j.file_path j.file_size
          (plan.max_retries + 1) (first_try p) w.files (omega arith) (omega arith) in
      rw (h, encode_with) (conclude-Ended plan end (record w { files = fs }) v)

  encode_with_profile-Ended :
      (p : ProfileRow) (w : World)
      → Present j.id w.db
      → Ended j.id (encode_with_profile env j p w).db
  unfolding encode_with_profile
  encode_with_profile-Ended p w v =
      on_option IsEnded (evaluate_filters env.probe_result p j)
        (on_option IsEnded (check_disk_space env.available j.file_size) (encode_with-Ended p w v)
          (λ r. fail_job-Ended r [] w v))
        (λ r. skip_job-Ended (filtered r) w v)

  encode_resolved-Ended : (w : World) → Present j.id w.db → Ended j.id (encode_resolved env j w).db
  unfolding encode_resolved
  encode_resolved-Ended w v =
      on_option IsEnded j.profile_id (fail_job-Ended no_profile [] w v) (λ pid.
        on_option IsEnded (env.profiles pid) (fail_job-Ended profile_lookup [] w v)
          (λ p. encode_with_profile-Ended p w v))

profile-Present :
    (now id : ℕ) (pid : Option ℕ) (db : Jobs)
    → Present id db
    → Present id (update_job_profile now id pid db).1
unfolding update_job_profile
profile-Present now id pid db v = record {
  row = record v.row { profile_id = pid; updated_at = now };
  found =
      get_job-update id (λ j. record j { profile_id = pid; updated_at = now }) db v.row (λ k. refl)
        v.found;
}

-- If the statements that mark a job do not fail and the job is in the table, then encode_one
-- returns with the job in the table and not being encoded.
pub encode_one-Ended :
    (env : Situation) (j : JobRow) (w : World)
    → env.mark_fails ≡ false
    → Present j.id w.db
    → Ended j.id (encode_one env j w).db
unfolding encode_one
encode_one-Ended env j w marks v =
    on_both (λ x. Ended j.id x.db) (reresolve_profile env j).1
      (on_both (λ x. Ended j.id x.db) env.update_profile_fails
        (encode_resolved-Ended env j marks w v)
        (encode_resolved-Ended env (record j { profile_id = (reresolve_profile env j).0 }) marks _
          (profile-Present env.now j.id _ w.db v)))
      (encode_resolved-Ended env j marks w v)
