-- ===== src/Store/Jobs/Lifecycle.antt =====
-- The transition diagram of a job's status, and which statements can remove a job.
use recodarr.Prelude.{
  ℕ, ◌≡◌, refl, sym, Bool, true, false, not, arith, Option, none, some, if◌then◌else◌, Bool-cases,
  inl, inr, ◌∙◌, subst,
}
use mathlib.Core.Option.{some-injective}
use recodarr.Store.Rows.{
  Status, waiting_for_seed, waiting_for_hardlink, ready, encoding, done, failed, skipped, JobRow,
}
use recodarr.Store.Jobs.Table.{Jobs, update_where, delete_where}
use recodarr.Store.Jobs.Updates.{find_id, find_id-update_rows, find_id-keep, updated, kept}
use recodarr.Store.Jobs.Queries.{get_job}
use recodarr.Store.Jobs.Invariant.{IsWellFormed}
use recodarr.Store.Jobs.Ops.{
  Op, remove, recover, retry_ids, remove_ids, remove_statuses, set_profiles, insert, apply,
}

-- One statement moves a status along one edge. The statements that end a job test no status.
infix 40 ◌⟶◌
pub data ◌⟶◌ : Status → Status → Type 0 where
  stays : {s : Status} → s ⟶ s
  seed_released : waiting_for_seed ⟶ ready
  hardlink_released : waiting_for_hardlink ⟶ ready
  claimed : ready ⟶ encoding
  given_back : encoding ⟶ ready
  finished : {s : Status} → s ⟶ done
  gave_up : {s : Status} → s ⟶ failed
  passed_over : {s : Status} → s ⟶ skipped
  redone : done ⟶ waiting_for_seed
  retried : failed ⟶ waiting_for_seed
  reconsidered : skipped ⟶ waiting_for_seed

ruleset edges = (
  stays, seed_released, hardlink_released, claimed, given_back, finished, gave_up, passed_over,
  redone, retried, reconsidered,
)

abbrev pub is_insert : Op → Bool
is_insert (insert r) = true
is_insert _ = false

-- How a row may change in one statement.
abbrev pub Moves : JobRow → JobRow → Type 0
Moves j j' = (j.status ⟶ j'.status) × (j.file_path ≡ j'.file_path) × (j.file_size ≡ j'.file_size)

-- The row before, of which the row after is made.
pub record Origin (before : Option JobRow) (j' : JobRow) : Type 0 where
  pub row : JobRow
  pub found : before ≡ some row
  pub moves : Moves row j'

Origin-updated :
    (p : JobRow → Bool) (f : JobRow → JobRow) (o : Option JobRow) (j' : JobRow)
    → ((j : JobRow) → p j ≡ true → Moves j (f j))
    → updated p f o ≡ some j'
    → Origin o j'
Origin-updated p f none j' step h = cc
Origin-updated p f (some j) j' step h =
    subst (λ x. Origin (some j) x) (some-injective _ _ h)
      (record { row = j; found = refl; moves = moved })
  where
    moved : Moves j (if p j then f j else j)
    moved = elim (Bool-cases (p j)) [ inl e ↦ rw e (step j e) | inr e ↦ rw e (stays, refl, refl) ]

module _ (id : ℕ) (db : Jobs) (j' : JobRow) where
  Origin-update :
      (p : JobRow → Bool) (f : JobRow → JobRow)
      → ((j : JobRow) → (f j).id ≡ j.id)
      → ((j : JobRow) → p j ≡ true → Moves j (f j))
      → get_job id (update_where p f db).1 ≡ some j'
      → Origin (get_job id db) j'
  unfolding get_job update_where
  Origin-update p f same step h =
      Origin-updated p f (find_id id db.rows) j' step
        (sym (find_id-update_rows p f same id db.rows) ∙ h)

  Origin-same : get_job id db ≡ some j' → Origin (get_job id db) j'
  Origin-same h = record { row = j'; found = h; moves = (stays, refl, refl) }

  Origin-kept : (p : JobRow → Bool) (o : Option JobRow) → kept p o ≡ some j' → Origin o j'
  Origin-kept p none h = cc
  Origin-kept p (some j) h = record { row = j'; found = ground arith; moves = (stays, refl, refl) }

  Origin-delete :
      (p : JobRow → Bool)
      → IsWellFormed db
      → get_job id (delete_where p db).1 ≡ some j'
      → Origin (get_job id db) j'
  unfolding get_job delete_where
  Origin-delete p v h =
      Origin-kept (λ j. not (p j)) (find_id id db.rows)
        (sym (find_id-keep (λ j. not (p j)) id 0 db.rows v.ordered) ∙ h)

  Origin-if :
      {A : Type 0} (b : Bool) (m n : A × Jobs)
      → (get_job id m.1 ≡ some j' → Origin (get_job id db) j')
      → (get_job id n.1 ≡ some j' → Origin (get_job id db) j')
      → get_job id (if b then m else n).1 ≡ some j'
      → Origin (get_job id db) j'
  Origin-if true m n hm hn h = hm h
  Origin-if false m n hm hn h = hn h

-- Every statement but INSERT takes the status of each job along an edge of the diagram, and keeps its
-- file path and size: a row that is there after it was there before.
pub apply-follows :
    (now id : ℕ) (op : Op) (db : Jobs) (j' : JobRow)
    → is_insert op ≡ false
    → IsWellFormed db
    → get_job id (apply now op db) ≡ some j'
    → Origin (get_job id db) j'
unfolding apply
apply-follows now id (insert r) db j' i v h = cc
apply-follows now id (remove k) db j' i v h = Origin-delete id db j' _ v h
apply-follows now id (remove_ids ks) db j' i v h =
    Origin-if id db j' _ _ _ (Origin-same id db j') (Origin-delete id db j' _ v) h
apply-follows now id (remove_statuses ss) db j' i v h =
    Origin-if id db j' _ _ _ (Origin-same id db j') (Origin-delete id db j' _ v) h
apply-follows now id recover db j' i v h =
    Origin-if id db j' _ _ _ (Origin-same id db j')
      (Origin-update id db j' _ _ (λ j. refl) (λ j t. grind (arith, edges))) h
apply-follows now id (retry_ids ks) db j' i v h =
    Origin-if id db j' _ _ _ (Origin-same id db j')
      (Origin-update id db j' _ _ (λ j. refl) (λ j t. grind (arith, edges))) h
apply-follows now id (set_profiles ks pid) db j' i v h =
    Origin-if id db j' _ _ _ (Origin-same id db j')
      (Origin-update id db j' _ _ (λ j. refl) (λ j t. grind (arith, edges))) h
apply-follows now id _ db j' i v h =
    Origin-update id db j' _ _ (λ j. refl) (λ j t. grind (arith, edges)) h
