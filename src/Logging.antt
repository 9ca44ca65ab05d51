-- ===== src/Logging.antt =====
-- internal/logging/logging.go: the levels, the prefix of the lines of HandBrake's log, and what the
-- transport logs of a response.
use recodarr.Prelude.{
  length, ◌++◌, ◌++◌, [], none, text_eq, ◌||◌, ◌||◌, leb, codes, some, if◌then◌else◌, true, ◌==◌,
  ◌∷◌, ◌==◌, ℕ, Bool, Text, Option, trim_space,
}
use recodarr.Store.Settings.{to_upper}
pub mod Prefix

pub data Level : Type 0 where
  debug info warn error : Level

-- The numbers of log/slog, -4, 0, 4 and 8, each with 4 added.
abbrev pub rank : Level → ℕ
rank debug = 0
rank info = 4
rank warn = 8
rank error = 12

unfoldable pub parse_level : Text → Level
parse_level s =
    let u = to_upper (trim_space s) in
    if text_eq u (codes "DEBUG")
    then debug
    else if text_eq u (codes "WARN") || text_eq u (codes "WARNING")
    then warn
    else if text_eq u (codes "ERROR")
    then error
    else info

-- Enabled
unfoldable pub enabled : Level → Level → Bool
enabled level l = leb (rank level) (rank l)

unfoldable pub level_label : Level → Text
level_label error = codes "ERROR"
level_label warn = codes "WARN "
level_label info = codes "INFO "
level_label debug = codes "DEBUG"

-- prefixingWriter, with the writer below as the text written so far and whether it fails.
pub record PrefixingWriter : Type 0 where
  pub prefix : Text
  pub at_eol : Bool

abbrev pub is_eol : ℕ → Bool
is_eol c = c == 10 || c == 13

-- The loop of Write: the bytes that are written, and whether they end a line.
unfoldable pub prefixed : Text → Bool → Text → Text × Bool
prefixed prefix at_eol [] = ([], at_eol)
prefixed prefix at_eol (c ∷ b) =
    let (out, last) = prefixed prefix (is_eol c) b in
    ((if at_eol then prefix else []) ++ c ∷ out, last)

-- Write: the number of bytes, or an error, the writer, and what the writer below gets.
unfoldable pub write : Bool → Text → PrefixingWriter → Option ℕ × PrefixingWriter × Text
unfolding prefixed
write fails [] p = (some 0, p, [])
write fails (c ∷ b) p =
    let (out, last) = prefixed p.prefix p.at_eol (c ∷ b) in
    let p' = record p { at_eol = last } in
    if fails then (none, p', []) else (some (length (c ∷ b)), p', out)

abbrev pub new_prefixing_writer : Text → PrefixingWriter
new_prefixing_writer prefix = record { prefix = prefix; at_eol = true }

-- The level and the text of the entry that RoundTrip logs; `none` is an error of the request.
unfoldable pub round_trip_entry : Option ℕ → Level × Text
round_trip_entry none = (warn, codes "outbound http error")
round_trip_entry (some status) =
    if leb 500 status
    then (warn, codes "outbound http 5xx")
    else if leb 400 status
    then (info, codes "outbound http 4xx")
    else (info, codes "outbound http")
