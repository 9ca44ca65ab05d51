-- ===== src/Worker/Reconcile/Laws.antt =====
-- internal/job/reconcile.go: what a scan inserts.
use recodarr.Store.Jobs.Ops.{is_waiting}
use recodarr.Store.Jobs.Counts.{has_job_for_item-insert_job}
use recodarr.Store.Jobs.Queries.{same_item}
use recodarr.Store.Jobs.Invariant.{insert_job-IsWellFormed, IsWellFormed}
use recodarr.Prelude.{
  text_eq_refl, if_false, if_true, ◌≡◌, refl, ◌∙◌, Bool, true, false, ◌||◌, Text, List, [], ◌∷◌,
  Option, none, some, All, if◌then◌else◌, arith, Bool-cases, Option-cases, inl, inr,
}
use recodarr.Worker.Reconcile.{
  waiting_for_seed, is_empty, waiting_for_hardlink, insert_job, has_job_for_item, Jobs,
  TagMappingRow, ArrInstanceRow, Scan, MediaFile, LibraryItem, candidate, new_row, reconcile_file,
  reconcile_parent,
}

abbrev idle_with : Option Text → Bool → Bool
idle_with none k = true
idle_with (some p) k = k

idle_with_more :
    (o : Option Text) (a b c : Bool)
    → (b ≡ true → c ≡ true)
    → idle_with o (a || b) ≡ true
    → idle_with o (a || c) ≡ true
idle_with_more none a b c m h = refl
idle_with_more (some p) true b c m h = refl
idle_with_more (some p) false b c m h = m h

if_same : (b : Bool) → (if b then true else true) ≡ true
if_same true = refl
if_same false = refl

or_true : (a b : Bool) → b ≡ true → (a || b) ≡ true
or_true a b h = ground arith

waits : (b : Bool) → is_waiting (if b then waiting_for_hardlink else waiting_for_seed) ≡ true
waits true = refl
waits false = refl

module _ (sc : Scan) (inst : ArrInstanceRow) (it : LibraryItem) (mp : TagMappingRow) where
  abbrev step : MediaFile → Jobs → Bool × Jobs
  step = reconcile_file sc inst it mp

  abbrev is_known : MediaFile → Jobs → Bool
  is_known f db = has_job_for_item inst.kind inst.id f.file_id db

  -- A file that the loop passes over.
  abbrev is_idle : MediaFile → Jobs → Bool
  is_idle f db = idle_with (candidate sc f) (sc.db_fails f.file_id || is_known f db)

  abbrev inserted : MediaFile → Text → Jobs → Jobs
  inserted f p db = (insert_job sc.time (new_row sc inst it mp f p) db).1

  -- What one step does.
  data Step (f : MediaFile) (db : Jobs) : Type 0 where
    passes : is_idle f db ≡ true → step f db ≡ (false, db) → Step f db
    inserts :
        (p : Text)
        → candidate sc f ≡ some p
        → is_idle f db ≡ false
        → step f db ≡ (true, inserted f p db)
        → Step f db

  step-Step : (f : MediaFile) (db : Jobs) → Step f db
  unfolding reconcile_file
  step-Step f db = elim (Option-cases (candidate sc f)) [
    | inl e ↦ passes (rw (e, is_idle) refl) (rw (e, reconcile_file) refl)
    | inr (p, e) ↦ elim (Bool-cases (sc.db_fails f.file_id || is_known f db)) [
      | inl k ↦ passes (rw (e, is_idle) k) (rw (e, reconcile_file) (if_true _ _ k refl))
      | inr k ↦ inserts p e (rw (e, is_idle) k) (rw (e, reconcile_file) (if_false _ _ k refl))
    ]
  ]

  known-inserted :
      (f g : MediaFile) (p : Text) (db : Jobs)
      → is_known f (inserted g p db) ≡ (
          if same_item inst.kind inst.id f.file_id (new_row sc inst it mp g p)
          then true
          else is_known f db)
  known-inserted f g p db =
      has_job_for_item-insert_job sc.time (new_row sc inst it mp g p) inst.kind inst.id f.file_id db

  same_row :
      (f : MediaFile) (p : Text)
      → same_item inst.kind inst.id f.file_id (new_row sc inst it mp f p) ≡ true
  same_row f p = ground (arith, text_eq_refl inst.kind)

  -- A file that is passed over is passed over after any step.
  idle-step : (f g : MediaFile) (db : Jobs) → is_idle f db ≡ true → is_idle f (step g db).1 ≡ true
  idle-step f g db h = elim (step-Step g db) [
    | passes i e ↦ rw e h
    | inserts p c i e ↦ rw e (
        idle_with_more (candidate sc f) (sc.db_fails f.file_id) (is_known f db) _
          (λ k.
            rw (known-inserted f g p db, k)
              (if_same (same_item inst.kind inst.id f.file_id (new_row sc inst it mp g p))))
          h)
  ]

  -- A step leaves nothing to do for its file.
  idle_self : (f : MediaFile) (db : Jobs) → is_idle f (step f db).1 ≡ true
  idle_self f db = elim (step-Step f db) [
    | passes i e ↦ rw e i
    | inserts p c i e ↦
        rw (e, c, is_idle)
          (or_true (sc.db_fails f.file_id) _
            (known-inserted f f p db ∙ if_true _ _ (same_row f p) refl))
  ]

  idle-parent :
      (f : MediaFile) (fs : List MediaFile) (db : Jobs)
      → is_idle f db ≡ true
      → is_idle f (reconcile_parent sc inst it mp fs db).1 ≡ true
  unfolding reconcile_parent
  idle-parent f [] db h = h
  idle-parent f (g ∷ fs) db h = idle-parent f fs (step g db).1 (idle-step f g db h)

  AllIdle-parent :
      (fs : List MediaFile) (db : Jobs)
      → All (λ f. is_idle f (reconcile_parent sc inst it mp fs db).1 ≡ true) fs
  unfolding reconcile_parent
  AllIdle-parent [] db = tt
  AllIdle-parent (f ∷ fs) db =
      (idle-parent f fs (step f db).1 (idle_self f db), AllIdle-parent fs (step f db).1)

  step-idle : (f : MediaFile) (db : Jobs) → is_idle f db ≡ true → step f db ≡ (false, db)
  step-idle f db h = elim (step-Step f db) [ passes i e ↦ e | inserts p c i e ↦ absurd (cc (h, i)) ]

  parent-idle :
      (fs : List MediaFile) (db : Jobs)
      → All (λ f. is_idle f db ≡ true) fs
      → reconcile_parent sc inst it mp fs db ≡ (0, db)
  unfolding reconcile_parent
  parent-idle [] db h = refl
  parent-idle (f ∷ fs) db h = rw (step-idle f db h.0, parent-idle fs db h.1) refl

  -- A second scan of the same files inserts nothing and leaves the table as it is.
  pub reconcile_parent_twice :
      (fs : List MediaFile) (db : Jobs)
      → reconcile_parent sc inst it mp fs (reconcile_parent sc inst it mp fs db).1
        ≡ (0, (reconcile_parent sc inst it mp fs db).1)
  reconcile_parent_twice fs db = parent-idle fs _ (AllIdle-parent fs db)

  -- A scan keeps the table well-formed: the jobs that it inserts wait.
  pub reconcile_parent-IsWellFormed :
      (fs : List MediaFile) (db : Jobs)
      → IsWellFormed db
      → IsWellFormed (reconcile_parent sc inst it mp fs db).1
  unfolding reconcile_parent
  reconcile_parent-IsWellFormed [] db v = v
  reconcile_parent-IsWellFormed (f ∷ fs) db v =
      reconcile_parent-IsWellFormed fs (step f db).1 (elim (step-Step f db) [
        | passes i e ↦ rw e v
        | inserts p c i e ↦ rw e (
            insert_job-IsWellFormed sc.time (new_row sc inst it mp f p)
              (waits (is_empty (sc.import_of p f.relative_path))) v)
      ])
