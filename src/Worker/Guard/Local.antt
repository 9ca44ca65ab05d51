-- ===== src/Worker/Guard/Local.antt =====
-- internal/job/job.go: the call of internal/handbrake by the worker itself, as an encoder of the size
-- guard.
use recodarr.Handbrake.Temp.{temp_path-ne}
use recodarr.Handbrake.Run.Safety.{run_no_commit_temp, run_no_commit}
use recodarr.Worker.Guard.Laws.{IsCareful}
use recodarr.Prelude.Paths.{slash, base}
use recodarr.Worker.Guard.{Encoder}
use recodarr.Prelude.{ℕ, ◌≡◌, Bool, false, Text, text_eq, [], ◌∷◌}
use recodarr.Handbrake.Run.{Process, run}

-- `handbrake.Run` as the encoder of a source; `process n` is the n-th process.
unfoldable pub local : (ℕ → Process) → (ℕ → Bool) → Text → Encoder
local process renames source = record {
  remote = λ n. false;
  encode = λ n s fs. run source s (process n) fs;
  renames = renames;
}

-- If the source is not the root directory, a local run keeps to the contract.
pub local-IsCareful :
    (process : ℕ → Process) (renames : ℕ → Bool) (source : Text)
    → text_eq (base source) (slash ∷ []) ≡ false
    → IsCareful (local process renames source) source
unfolding local
local-IsCareful process renames source h = record {
  keeps = λ n s fs c.
      run_no_commit source source s (process n) fs c (temp_path-ne source s.container_format h);
  leaves = λ n s fs c e.
      let (path, size) = run_no_commit_temp source s (process n) fs c e in rw path size;
  apart = λ n s fs c e.
      let (path, size) = run_no_commit_temp source s (process n) fs c e in
      rw path (temp_path-ne source s.container_format h);
}
