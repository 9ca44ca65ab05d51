-- ===== src/Tests/Agent.antt =====
-- The theorems on the agent at concrete inputs.
use recodarr.Agent.Runner.Cleanup.{cleanup_terminal-find, IsSwept}
use recodarr.Agent.Store.Restart.{open_store-restored, IsRestored}
use recodarr.Tests.{library, film_path, sample_settings, good_process}
use recodarr.Agent.Store.{open_store, AgentStore}
use recodarr.Agent.Store.{find_id}
use recodarr.Agent.Runner.{cleanup_terminal, encode_job, Surroundings}
use recodarr.Agent.Runner.Encode.{encode_job-source, encode_job-Delivered, Delivered}
use recodarr.Agent.Server.Laws.{upload_source-UploadEnds, UploadEnds}
use recodarr.Prelude.Paths.{after_slash, strip_slashes, base}
use recodarr.Agent.Server.{upload_source, Upload}
use recodarr.Agent.Store.Claim.{claim_queued-oldest, TakesOldest, TakesNone}
use recodarr.Prelude.{◌≡◌, refl, true, false, Text, codes, text_eq, [], ◌∷◌, none, some, ◌⊎◌}
use recodarr.Agent.Protocol.{JobRequest, Snapshot, awaiting_source, queued, encoding}

abbrev sample_request : JobRequest
sample_request = record {
  filename = codes "film.mkv";
  size_bytes = 1000;
  settings = sample_settings;
  output_container = codes "mkv";
  source_path = film_path;
  source_hash = codes "abc";
}

abbrev pub sample_agent_job : Snapshot
sample_agent_job = record {
  id = codes "j1";
  state = queued;
  created_at = 5;
  started_at = none;
  finished_at = none;
  error = [];
  output_size_bytes = 0;
  request = sample_request;
  local_source = true;
  local_output_path = [];
}

abbrev pub agent_with : Snapshot → AgentStore
agent_with js = record { root = codes "/agent"; memory = js ∷ []; disk = js ∷ [] }

abbrev pub surroundings : Surroundings
surroundings = record {
  time = 9;
  log_opens = true;
  process = good_process;
  was_cancelled = false;
  moves = true;
  writes = true;
  text_of = λ e. [];
}

open_store-restored_example :
    (s' : AgentStore) × (open_store 9 true
        (agent_with (record sample_agent_job { state = encoding }))
      ≡ some s')
    × ((id : Text)
        → IsRestored 9
            (find_id id (record sample_agent_job { state = encoding } ∷ []))
            (find_id id s'.memory))
open_store-restored_example =
    open_store-restored 9 (agent_with (record sample_agent_job { state = encoding })) (refl, tt)
      (record { same = λ id. refl })

claim_queued-oldest_example :
    TakesNone 9 (agent_with sample_agent_job) ⊎ TakesOldest 9 (agent_with sample_agent_job)
claim_queued-oldest_example = claim_queued-oldest 9 (agent_with sample_agent_job)

encode_job-source_example :
    (encode_job surroundings sample_agent_job (agent_with sample_agent_job, library)).1 film_path
    ≡ some 1000
unfolding base strip_slashes after_slash text_eq
encode_job-source_example =
    encode_job-source surroundings sample_agent_job (agent_with sample_agent_job) library refl refl

encode_job-Delivered_example :
    Delivered
      (agent_with sample_agent_job)
      (encode_job surroundings sample_agent_job (agent_with sample_agent_job, library)).0
      sample_agent_job
      (encode_job surroundings sample_agent_job (agent_with sample_agent_job, library)).1
unfolding text_eq
encode_job-Delivered_example =
    encode_job-Delivered surroundings sample_agent_job (agent_with sample_agent_job) refl library

cleanup_terminal-find_example :
    IsSwept 9
      (find_id (codes "j1") (agent_with sample_agent_job).memory)
      (find_id (codes "j1") (cleanup_terminal 9 true (agent_with sample_agent_job)).memory)
unfolding text_eq
cleanup_terminal-find_example =
    cleanup_terminal-find 9 true (codes "j1") (agent_with sample_agent_job) (refl, tt)

abbrev whole_upload : Upload
whole_upload = record { content_length = 1000; opens = true; copied = 1000; fails = false }

abbrev awaiting_job : Snapshot
awaiting_job = record sample_agent_job { state = awaiting_source; local_source = false }

upload_source-UploadEnds_example :
    UploadEnds
      (codes "j1")
      (agent_with awaiting_job)
      (upload_source whole_upload true (codes "j1") (agent_with awaiting_job, library))
upload_source-UploadEnds_example =
    upload_source-UploadEnds whole_upload (codes "j1") (agent_with awaiting_job) library
