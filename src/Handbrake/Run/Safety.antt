-- ===== src/Handbrake/Run/Safety.antt =====
-- What a run of the encoder does to the media file and to the temporary file.
use recodarr.Prelude.{◌≡◌, true, false, Text, text_eq, text_eq_refl, none, some, arith}
use recodarr.Files.{Files, write, remove}
use recodarr.Handbrake.Args.{Settings}
use recodarr.Handbrake.Temp.{temp_path}
use recodarr.Handbrake.Run.{Process, RunError, run}

-- A run that fails leaves the media file as it was, and every other file but the temporary one.
pub run_error_keeps :
    (input q : Text) (s : Settings) (p : Process) (fs : Files) (e : RunError)
    → (run input s p fs).0.1 ≡ some e
    → text_eq (temp_path input s.container_format) q ≡ false
    → (run input s p fs).1 q ≡ fs q
unfolding run write remove
run_error_keeps input q s p fs e h n = ground arith

-- A run that may not commit never changes a file but the temporary one; when it succeeds, that file
-- is there, at the path and of the size that the result names.
pub run_no_commit :
    (input q : Text) (s : Settings) (p : Process) (fs : Files)
    → s.no_commit ≡ true
    → text_eq (temp_path input s.container_format) q ≡ false
    → (run input s p fs).1 q ≡ fs q
unfolding run write remove
run_no_commit input q s p fs c n = ground arith

pub run_no_commit_temp :
    (input : Text) (s : Settings) (p : Process) (fs : Files)
    → s.no_commit ≡ true
    → (run input s p fs).0.1 ≡ none
    → ((run input s p fs).0.0.temp_path_of ≡ temp_path input s.container_format)
      × ((run input s p fs).1 (temp_path input s.container_format)
          ≡ some (run input s p fs).0.0.final_size)
unfolding run write remove
run_no_commit_temp input s p fs c h =
    ground (arith, text_eq_refl (temp_path input s.container_format))
