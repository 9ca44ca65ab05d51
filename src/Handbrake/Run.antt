-- ===== src/Handbrake/Run.antt =====
-- internal/handbrake/handbrake.go: Run, Commit and DiscardTemp, over the files of the file system.
-- What HandBrakeCLI does is a parameter of each call: whether the process starts, its exit, its log
-- and what it leaves at its output path.
pub mod Safety
use recodarr.Prelude.{
  [], ℕ, zero, ◌≡◌, refl, sym, Bool, true, false, not, ◌&&◌, Text, codes, text_eq, text_eq_iff,
  text_eq_refl, Option, none, some, if◌then◌else◌, arith, ◌==◌, Bool-cases, inl, inr,
}
use recodarr.Prelude.Int.{ℤ, pos, negsuc}
use recodarr.Files.{Files, write, remove, rename, write_self, write_other}
use recodarr.Handbrake.Args.{Settings, is_abr}
use recodarr.Handbrake.Temp.{temp_path}
use recodarr.Handbrake.WorkResult.{parse_work_result}

pub record RunResult : Type 0 where
  pub final_size : ℕ
  pub temp_path_of : Text
  pub log : Text

abbrev pub no_result : RunResult
no_result = record { final_size = 0; temp_path_of = []; log = [] }

pub data RunError : Type 0 where
  no_bitrate stat_input start_failed exit_failed no_work_result stat_tmp rename_failed : RunError
  work_result : ℤ → RunError

-- What the process does and which system calls fail.
pub record Process : Type 0 where
  pub starts : Bool
  pub exits_zero : Bool
  pub output : Option ℕ  -- the size of what it leaves at the output path
  pub log_text : Text
  pub renames : Bool

abbrev pub RunOutcome : Type 0
RunOutcome = RunResult × Option RunError

abbrev pub log_only : Text → RunResult
log_only log = record no_result { log = log }

abbrev is_zero : ℤ → Bool
is_zero (pos n) = n == 0
is_zero (negsuc n) = false

-- From the `os.Stat(tmp)` on.
unfoldable pub publish : Text → Text → Bool → Process → Option ℕ → Files → RunOutcome × Files
publish input tmp no_commit p none fs = ((log_only p.log_text, some stat_tmp), fs)
publish input tmp no_commit p (some size) fs =
    if no_commit
    then ((record { final_size = size; temp_path_of = tmp; log = p.log_text }, none), fs)
    else if p.renames
    then (
      (record { final_size = size; temp_path_of = []; log = p.log_text }, none),
      rename tmp input fs,
    )
    else ((log_only p.log_text, some rename_failed), remove tmp fs)

abbrev pub judge : Text → Text → Bool → Process → Option ℤ → Files → RunOutcome × Files
judge input tmp no_commit p none fs = ((log_only p.log_text, some no_work_result), remove tmp fs)
judge input tmp no_commit p (some rc) fs =
    if is_zero rc
    then publish input tmp no_commit p (fs tmp) fs
    else ((log_only p.log_text, some (work_result rc)), remove tmp fs)

abbrev exists : Option ℕ → Bool
exists none = false
exists (some size) = true

unfoldable pub run : Text → Settings → Process → Files → RunOutcome × Files
unfolding publish
run input s p fs =
    let tmp = temp_path input s.container_format in
    let after = write tmp p.output fs in
    if is_abr s && s.video_bitrate == 0
    then ((no_result, some no_bitrate), fs)
    else if not (exists (fs input))
    then ((no_result, some stat_input), fs)
    else if not p.starts
    then ((no_result, some start_failed), fs)
    else if not p.exits_zero
    then ((log_only p.log_text, some exit_failed), remove tmp after)
    else judge input tmp s.no_commit p (parse_work_result p.log_text) after

-- `Commit(tempPath, finalPath)`: the rename fails or not.
unfoldable pub commit : Text → Text → Bool → Files → Bool × Files
commit tmp final true fs = (true, rename tmp final fs)
commit tmp final false fs = (false, remove tmp fs)

unfoldable pub discard_temp : Text → Files → Files
discard_temp tmp = remove tmp
