-- ===== src/Worker/Tick/Capacity.antt =====
-- internal/job/job.go: how many encodes runEncodes starts.
use recodarr.Store.Jobs.Counts.{jobs_by_status_lem}
use recodarr.Store.Jobs.Queries.{jobs_by_status}
use recodarr.Prelude.{
  if_false, if_true, subst, max, ◌+◌, ◌≤◌, refl, sym, not, ◌||◌, List, [], ◌∷◌, length, ◌==◌, arith,
  Bool-cases, Option-cases, inl, inr,
}
use recodarr.Worker.Tick.{
  ready, Jobs, JobRow, TickState, try_start, start_batch, slots, run_encodes,
}

start_batch-length :
    (st : TickState) (js : List JobRow) (db : Jobs) → length (start_batch st js db).0 ≤ length js
unfolding start_batch
start_batch-length st [] db = omega arith
start_batch-length st (j ∷ js) db = elim (Option-cases (try_start st j db).0) [
  | inl e ↦ rw (e, start_batch) (omega (arith, start_batch-length st js (try_start st j db).1))
  | inr (k, e) ↦ rw (e, start_batch) (omega (arith, start_batch-length st js (try_start st j db).1))
]

run_encodes-length : (st : TickState) (db : Jobs) → length (run_encodes st db).0 ≤ slots st
unfolding run_encodes
run_encodes-length st db = elim (Bool-cases (st.encoding_paused || not st.in_window)) [
  | inl e ↦ rw (e, run_encodes) (omega arith)
  | inr e ↦ elim (Bool-cases (slots st == 0)) [
    | inl z ↦
        rw (e, run_encodes) (subst short (sym (if_true (slots st == 0) _ z refl)) (omega arith))
    | inr z ↦
        rw (e, run_encodes)
          (subst short (sym (if_false (slots st == 0) _ z refl)) (
            omega (
              arith,
              start_batch-length st (jobs_by_status ready (slots st) db) db,
              (jobs_by_status_lem ready (slots st) db).1,
            )))
  ]
]
  where
    short : List JobRow × Jobs → Type 0
    short x = length x.0 ≤ slots st

-- The encodes that run after a tick are no more than the setting allows, where a setting below one
-- counts as one, or no more than before.
pub run_encodes-slots :
    (st : TickState) (db : Jobs)
    → st.active_encodes + length (run_encodes st db).0
      ≤ max st.active_encodes (max 1 st.max_parallel_encodes)
run_encodes-slots st db = grind (arith, run_encodes-length st db)
