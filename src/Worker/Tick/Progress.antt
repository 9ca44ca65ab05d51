-- ===== src/Worker/Tick/Progress.antt =====
-- internal/job/job.go: what becomes of the batch of runEncodes.
use recodarr.Worker.Tick.Start.{
  try_start-IsWellFormed, try_start-other, try_start-IsTried, is_startable,
}
use recodarr.Store.Jobs.Invariant.{IsWellFormed}
use recodarr.Store.Jobs.Queries.{get_job}
use recodarr.Store.Rows.{Status, encoding, failed, ready}
use recodarr.Store.Jobs.Table.{is_status}
use recodarr.Prelude.{
  ap, ◌∙◌, true, if◌then◌else◌, keep, Option, none, arith, subst, ◌≡◌, refl, sym, false, List, [],
  ◌∷◌, some, All, ◌==◌, Option-cases, inl, inr,
}
use recodarr.Worker.Tick.{Jobs, JobRow, TickState, try_start, start_batch}

-- The jobs of a batch are ready rows of the table, each once.
abbrev pub IsBatch : List JobRow → Jobs → Type 0
IsBatch [] db = Unit
IsBatch (j ∷ js) db =
    (get_job j.id db ≡ some j)
    × (is_status j.status ready ≡ true)
    × All (λ k. (k.id == j.id) ≡ false) js
    × IsBatch js db

start_batch-db :
    (st : TickState) (j : JobRow) (js : List JobRow) (db : Jobs)
    → (start_batch st (j ∷ js) db).1 ≡ (start_batch st js (try_start st j db).1).1
unfolding start_batch
start_batch-db st j js db = elim (Option-cases (try_start st j db).0) [
  | inl e ↦ rw (e, start_batch) refl
  | inr (k, e) ↦ rw (e, start_batch) refl
]

abbrev with_started : Option JobRow → List JobRow → List JobRow
with_started none l = l
with_started (some j) l = j ∷ l

start_batch-started :
    (st : TickState) (j : JobRow) (js : List JobRow) (db : Jobs)
    → (start_batch st (j ∷ js) db).0
      ≡ with_started (try_start st j db).0 (start_batch st js (try_start st j db).1).0
unfolding start_batch
start_batch-started st j js db = elim (Option-cases (try_start st j db).0) [
  | inl e ↦ rw (e, start_batch) refl
  | inr (k, e) ↦ rw (e, start_batch) refl
]

-- The rows of other jobs stay.
start_batch-other :
    (st : TickState) (js : List JobRow) (db : Jobs) (j k : JobRow)
    → All (λ l. (l.id == j.id) ≡ false) js
    → k.id ≡ j.id
    → get_job j.id db ≡ some k
    → get_job j.id (start_batch st js db).1 ≡ some k
unfolding start_batch
start_batch-other st [] db j k n i h = h
start_batch-other st (l ∷ js) db j k n i h =
    subst (λ x. get_job j.id x ≡ some k) (sym (start_batch-db st l js db))
      (start_batch-other st js (try_start st l db).1 j k n.1 i
        (try_start-other st l db j.id (ground (arith, n.0)) k i h))

IsBatch-other :
    (st : TickState) (j : JobRow) (js : List JobRow) (db : Jobs)
    → All (λ k. (k.id == j.id) ≡ false) js
    → IsBatch js db
    → IsBatch js (try_start st j db).1
IsBatch-other st j [] db n b = tt
IsBatch-other st j (k ∷ js) db n b =
    (try_start-other st j db k.id n.0 k refl b.0, b.1, b.2, IsBatch-other st j js db n.1 b.3)

abbrev pub status_of : Option JobRow → Option Status
status_of none = none
status_of (some j) = some j.status

outcomes :
    (st : TickState) (js : List JobRow) (db : Jobs)
    → IsBatch js db
    → IsWellFormed db
    → All
        (λ j.
          status_of (get_job j.id (start_batch st js db).1)
          ≡ some (if is_startable j then encoding else failed))
        js
outcomes st [] db b v = tt
outcomes st (j ∷ js) db b v =
    let t = try_start-IsTried st j db b.0 b.1 v in
    let db' = (try_start st j db).1 in
    subst
      (λ x.
        All (λ k. status_of (get_job k.id x) ≡ some (if is_startable k then encoding else failed))
          (j ∷ js))
      (sym (start_batch-db st j js db))
      (
        ap status_of (start_batch-other st js db' j t.row b.2 t.same t.found)
            ∙ ap (λ x. some x) t.outcome,
        outcomes st js db' (IsBatch-other st j js db b.2 b.3) (try_start-IsWellFormed st j db v),
      )

started_only :
    (st : TickState) (js : List JobRow) (db : Jobs)
    → IsBatch js db
    → IsWellFormed db
    → (start_batch st js db).0 ≡ keep is_startable js
unfolding start_batch
started_only st [] db b v = refl
started_only st (j ∷ js) db b v =
    let t = try_start-IsTried st j db b.0 b.1 v in
    let db' = (try_start st j db).1 in
    start_batch-started st j js db
    ∙ ap (λ o. with_started o (start_batch st js db').0) t.started
    ∙ ap (with_started (if is_startable j then some j else none)) (
        started_only st js db' (IsBatch-other st j js db b.2 b.3)
          (try_start-IsWellFormed st j db v))
    ∙ ground arith

-- Of a batch of ready jobs exactly those are started that were claimed less than five times and whose
-- file is not a temporary one. After it each of them is being encoded, and every other job of the batch
-- has failed: so none of them is in the way of the jobs behind it. The table is well-formed.
pub start_batch-progress :
    (st : TickState) (js : List JobRow) (db : Jobs)
    → IsBatch js db
    → IsWellFormed db
    → ((start_batch st js db).0 ≡ keep is_startable js)
      × All
          (λ j.
            status_of (get_job j.id (start_batch st js db).1)
            ≡ some (if is_startable j then encoding else failed))
          js
start_batch-progress st js db b v = (started_only st js db b v, outcomes st js db b v)
