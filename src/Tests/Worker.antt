-- ===== src/Tests/Worker.antt =====
-- The theorems on the scan of a library and the tick at concrete inputs.
use recodarr.Worker.Tick.Progress.{start_batch-progress, status_of}
use recodarr.Worker.Tick.Capacity.{run_encodes-slots}
use recodarr.Worker.Tick.Start.{is_startable}
use recodarr.Tests.{film_path, sample_job}
use recodarr.Store.Jobs.Ops.{empty_jobs}
use recodarr.Worker.Reconcile.Laws.{reconcile_parent_twice}
use recodarr.Store.Jobs.Invariant.{IsWellFormed}
use recodarr.Store.Jobs.Queries.{get_job}
use recodarr.Worker.Tick.{start_batch, TickState, run_encodes}
use recodarr.Store.Jobs.Table.{Jobs}
use recodarr.Worker.Reconcile.{MediaFile, Scan, LibraryItem, reconcile_parent}
use recodarr.Store.Rows.{ready, encoding, failed, ArrInstanceRow, TagMappingRow, JobRow}
use recodarr.Prelude.{
  max, ◌+◌, ◌≤◌, ◌≡◌, refl, true, false, codes, List, [], ◌∷◌, none, length, All, keep, some,
  if◌then◌else◌, arith,
}

abbrev sample_scan : Scan
sample_scan = record {
  time = 3;
  suffix_enabled = false;
  sidecar_exists = λ p. false;
  import_of = λ p r. [];
  tags_of = λ t. t;
  db_fails = λ id. false;
}

abbrev sample_instance : ArrInstanceRow
sample_instance = record {
  id = 1;
  kind = codes "radarr";
  name = [];
  url = [];
  api_key = [];
  enabled = true;
  deleted_at = none;
}

abbrev sample_item : LibraryItem
sample_item = record { item_id = 5; item_title = codes "Film"; tag_ids = 2 ∷ [] }

abbrev sample_mapping : TagMappingRow
sample_mapping = record {
  id = 1;
  arr_kind = codes "radarr";
  tag_id = 2;
  tag_label = codes "encode";
  profile_id = 1;
}

abbrev sample_files : List MediaFile
sample_files =
    record { file_id = 7; path = film_path; relative_path = codes "film.mkv"; size = 1000 } ∷ []

abbrev scanned : Jobs
scanned =
    (reconcile_parent sample_scan sample_instance sample_item sample_mapping sample_files
      empty_jobs).1

reconcile_parent_twice_example :
    reconcile_parent sample_scan sample_instance sample_item sample_mapping sample_files scanned
    ≡ (0, scanned)
reconcile_parent_twice_example =
    reconcile_parent_twice sample_scan sample_instance sample_item sample_mapping sample_files
      empty_jobs

abbrev sample_tick : TickState
sample_tick = record {
  now = 9;
  encoding_paused = false;
  in_window = true;
  max_parallel_encodes = 2;
  active_encodes = 1;
  attempts_text = λ n. [];
  temp_file_text = [];
}

abbrev tired_job : JobRow
tired_job = record sample_job { id = 1; status = ready; attempts = 5 }

abbrev tired : Jobs
tired = record { rows = tired_job ∷ []; next_id = 2 }

tired-IsWellFormed : IsWellFormed tired
tired-IsWellFormed = record {
  ordered = ground arith;
  fresh = ground arith;
  valid = (record { bounded = omega arith; by_status = (refl, refl, refl) }, tt);
}

run_encodes-slots_example : 1 + length (run_encodes sample_tick tired).0 ≤ max 1 (max 1 2)
run_encodes-slots_example = run_encodes-slots sample_tick tired

start_batch-progress_example :
    ((start_batch sample_tick (tired_job ∷ []) tired).0 ≡ keep is_startable (tired_job ∷ []))
    × All
        (λ j.
          status_of (get_job j.id (start_batch sample_tick (tired_job ∷ []) tired).1)
          ≡ some (if is_startable j then encoding else failed))
        (tired_job ∷ [])
unfolding get_job
start_batch-progress_example =
    start_batch-progress sample_tick (tired_job ∷ []) tired (refl, refl, tt, tt) tired-IsWellFormed
