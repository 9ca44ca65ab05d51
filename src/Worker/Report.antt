-- ===== src/Worker/Report.antt =====
-- internal/job/job.go: checkDiskSpace, the paths of the sidecar files, and the log that is kept of a
-- failed encode.
use recodarr.Prelude.Paths.{dir, join, ext, split_by, base}
use recodarr.Worker.Situation.{no_space, Reason}
use recodarr.Prelude.{
  trim_space, ℕ, ◌+◌, ◌-◌, ◌/◌, Text, codes, List, [], ◌∷◌, ◌++◌, Option, none, some, length, take,
  drop, ltb, if◌then◌else◌,
}

-- `none` if there is space, or if Statfs fails.
unfoldable pub check_disk_space : Option ℕ → ℕ → Option Reason
check_disk_space none needed = none
check_disk_space (some available) needed =
    let required = needed + needed / 10 in
    if ltb available required then some (no_space required available) else none

unfoldable pub sidecar_path : Text → Text → Text
sidecar_path media_path suffix =
    let b = base media_path in
    let stem = take (length b - length (ext b)) b in join (dir media_path) (stem ++ b'.' ∷ suffix)

abbrev max_encode_log_bytes : ℕ
max_encode_log_bytes = 65536

-- The last `n` elements.
abbrev last_n {ℓ} : {A : Type ℓ} → ℕ → List A → List A
last_n n xs = drop (length xs - n) xs

unfoldable pub join_lines : List Text → Text
join_lines [] = []
join_lines (l ∷ []) = l
join_lines (l ∷ m ∷ ls) = l ++ 10 ∷ join_lines (m ∷ ls)

-- The three bytes of the ellipsis, and the rest of the mark.
abbrev truncated_mark : Text
truncated_mark = 226 ∷ 128 ∷ 166 ∷ codes "[truncated]" ++ 10 ∷ []

unfoldable pub truncate_log : Text → ℕ → Text
unfolding join_lines
truncate_log s max_lines =
    let out = join_lines (last_n max_lines (split_by 10 (trim_space s))) in
    if ltb max_encode_log_bytes (length out)
    then truncated_mark ++ last_n max_encode_log_bytes out
    else out
