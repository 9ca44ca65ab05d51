-- ===== src/Tests/Signals.antt =====
-- The theorems on the health checks, the log and the progress of the encodes at concrete runs.
use recodarr.Prelude.{ℕ, ◌≡◌, true, false, codes, text_eq, [], ◌∷◌, ◌++◌, none, some, any_of}
use recodarr.Store.Settings.{SettingsMap, load_app_settings}
use recodarr.Health.{Probes, QbitAnswer, ticked, requested, run, new_checker, issue_key, all_issues}
use recodarr.Health.Notices.{replay, replay-run-tick}
use recodarr.Logging.{new_prefixing_writer}
use recodarr.Logging.Prefix.{write_all, prefix_each, lines, concat, write_all-lines}
use recodarr.Worker.Control.{Control}
use recodarr.Worker.Control.Tracked.{Action, act, IsTracked, act-IsTracked}
use recodarr.Tests.Tables.{sample_instance}

abbrev nothing_set : SettingsMap
nothing_set k = none

abbrev healthy : Probes
healthy = record {
  time = 100;
  handbrake_found = true;
  mappings = some 1;
  arr_rows = sample_instance ∷ [];
  arr_ping = λ r. none;
  qbit_rows = [];
  qbit_answer = λ r. QbitAnswer.well;
  settings = load_app_settings nothing_set;
  agent_ping = none;
  waiting_for_seed = some 0;
}

abbrev unreachable : Probes
unreachable = record healthy { time = 40; arr_ping = λ r. some (codes "refused") }

replay-run-tick_example :
    replay
      (run (ticked unreachable ∷ requested healthy ∷ ticked healthy ∷ []) new_checker).0
      (λ _. false)
      (codes "arr:1|Series (sonarr): unreachable")
    ≡ any_of
        (λ i. text_eq (issue_key i) (codes "arr:1|Series (sonarr): unreachable"))
        (all_issues healthy)
replay-run-tick_example =
    replay-run-tick (ticked unreachable ∷ requested healthy ∷ []) healthy
      (codes "arr:1|Series (sonarr): unreachable")

write_all-lines_example :
    (write_all
      (codes "Enc" ∷ (codes "oding" ++ 10 ∷ codes "do") ∷ codes "ne" ∷ [])
      (new_prefixing_writer (codes "[1] "))).0
    ≡ prefix_each
        (codes "[1] ")
        (lines (concat (codes "Enc" ∷ (codes "oding" ++ 10 ∷ codes "do") ∷ codes "ne" ∷ [])))
write_all-lines_example =
    write_all-lines (codes "[1] ")
      (codes "Enc" ∷ (codes "oding" ++ 10 ∷ codes "do") ∷ codes "ne" ∷ [])

abbrev idle : Control ℕ
idle = record { encoding = []; subscribers = []; requeue_on_cancel = []; next_channel = 0 }

idle-IsTracked : IsTracked 0 nothing_set idle
idle-IsTracked = record { own_progress = tt; within = tt; requeued = tt }

act-IsTracked_example :
    IsTracked 0 nothing_set (act 0 nothing_set (Action.started 3 (codes "Film")) idle)
act-IsTracked_example =
    act-IsTracked 0 nothing_set (Action.started 3 (codes "Film")) idle idle-IsTracked
