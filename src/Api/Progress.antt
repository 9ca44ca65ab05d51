-- ===== src/Api/Progress.antt =====
-- internal/api/admin.go: the handlers of the state of the worker, and internal/job/job.go: WindowStatus.
use recodarr.Prelude.{
  ℕ, Bool, true, false, not, ◌||◌, Text, codes, List, [], ◌∷◌, ◌++◌, Option, none, some, ◌==◌,
  if◌then◌else◌,
}
use recodarr.Api.{Answer}
use recodarr.Agent.Events.{write_sse}
use recodarr.Store.Settings.{AppSettings, SettingsMap}
use recodarr.Worker.Window.{in_encoding_window}
use recodarr.Worker.Control.{
  ProgressEvent, Control, encoding_job_ids, all_progress, current_progress, set_paused, subscribe,
}
use recodarr.Prelude.Paths.{is_empty}

pub record WindowStatus : Type 0 where
  pub start : Text
  pub end : Text
  pub active : Bool
  pub has_limit : Bool

unfoldable pub window_status : AppSettings → ℕ → ℕ → WindowStatus
unfolding in_encoding_window
window_status cfg hour minute =
    if is_empty cfg.encoding_window_start || is_empty cfg.encoding_window_end
    then record { start = []; end = []; active = true; has_limit = false }
    else record {
      start = cfg.encoding_window_start;
      end = cfg.encoding_window_end;
      active = in_encoding_window cfg.encoding_window_start cfg.encoding_window_end hour minute;
      has_limit = true;
    }

pub record WorkerStatus (F : Type 0) : Type 0 where
  pub is_encoding : Bool
  pub encoding_job_id : ℕ
  pub encoding_job_ids : List ℕ
  pub progress : List (ProgressEvent F)
  pub last_tick_at : Option ℕ
  pub window : WindowStatus
  pub max_parallel_encodes : ℕ
  pub paused : Bool

abbrev head_or_zero : List ℕ → ℕ
head_or_zero [] = 0
head_or_zero (i ∷ is) = i

-- What arrives while a client reads the stream: an event of its channel, or a tick of the timer.
pub data Wake (F : Type 0) : Type 0 where
  reported : ProgressEvent F → Wake F
  timer : Wake F

abbrev pub paused_answer : Bool → Option ℕ → Answer (Bool × ℕ)
paused_answer paused none = (500, none)
paused_answer paused (some cancelled) = (200, some (paused, cancelled))

abbrev idle_lines : List Text
idle_lines = write_sse (codes "idle") (codes "{}")

abbrev keepalive_lines : List Text
keepalive_lines = codes ": keepalive" ∷ [] ∷ []

module _ {F : Type 0} where
  unfoldable pub worker_status : AppSettings → Option ℕ → ℕ → ℕ → Control F → WorkerStatus F
  unfolding encoding_job_ids all_progress window_status
  worker_status cfg last_tick hour minute w = record {
    is_encoding = not (is_empty (encoding_job_ids w));
    encoding_job_id = head_or_zero (encoding_job_ids w);
    encoding_job_ids = encoding_job_ids w;
    progress = all_progress w;
    last_tick_at = last_tick;
    window = window_status cfg hour minute;
    max_parallel_encodes = cfg.max_parallel_encodes;
    paused = cfg.encoding_paused;
  }

  -- The body, if it is JSON: whether to pause.
  unfoldable pub worker_set_paused :
      Bool → Option Bool → SettingsMap → Control F → Answer (Bool × ℕ) × SettingsMap × Control F
  unfolding set_paused
  worker_set_paused fails none m w = ((400, none), m, w)
  worker_set_paused fails (some paused) m w =
      let (cancelled, m', w') = set_paused fails paused m w in
      (paused_answer paused cancelled, m', w')

  module _ (encode : ProgressEvent F → Text) where
    abbrev event_lines : ProgressEvent F → List Text
    event_lines ev = if ev.job_id == 0 then idle_lines else write_sse (codes "progress") (encode ev)

    -- The loop, until the client is gone or the channel closes.
    unfoldable pub progress_from : List (Wake F) → List Text
    unfolding write_sse
    progress_from [] = []
    progress_from (reported ev ∷ ws) = event_lines ev ++ progress_from ws
    progress_from (timer ∷ ws) = keepalive_lines ++ progress_from ws

    abbrev first_lines : Option (ProgressEvent F) → List Text
    first_lines none = idle_lines
    first_lines (some ev) = event_lines ev

    -- workerProgressSSE: the lines, and the worker with the new channel.
    unfoldable pub worker_progress_sse : List (Wake F) → Control F → List Text × Control F
    unfolding current_progress subscribe progress_from
    worker_progress_sse ws w =
        (first_lines (current_progress w) ++ progress_from ws, (subscribe w).1)
