-- ===== src/Handbrake/ShellSplit.antt =====
-- internal/handbrake/shellsplit.go: splitShellArgs.
use recodarr.Prelude.{ℕ, Bool, true, false, ◌||◌, Text, List, [], ◌∷◌, ◌++◌, ◌==◌, if◌then◌else◌}

-- The variables of the loop.
pub record Split : Type 0 where
  pub out : List Text
  pub cur : Text
  pub in_single : Bool
  pub in_double : Bool
  pub has_token : Bool

abbrev pub start : Split
start = record { out = []; cur = []; in_single = false; in_double = false; has_token = false }

abbrev pub write_byte : ℕ → Split → Split
write_byte c s = record s { cur = s.cur ++ c ∷ []; has_token = true }

abbrev pub flush : Split → Split
flush s =
    if s.has_token then record s { out = s.out ++ s.cur ∷ []; cur = []; has_token = false } else s

abbrev pub is_blank : ℕ → Bool
is_blank c = c == 32 || c == 9 || c == 10 || c == 13

-- The switch, for a byte that does not take the next one with it.
unfoldable pub plain_byte : ℕ → Split → Split
plain_byte c s =
    if s.in_single
    then (if c == 39 then record s { in_single = false } else write_byte c s)
    else if s.in_double
    then (if c == b'"' then record s { in_double = false } else write_byte c s)
    else if is_blank c
    then flush s
    else if c == 39
    then record s { in_single = true; has_token = true }
    else if c == b'"'
    then record s { in_double = true; has_token = true }
    else write_byte c s

-- A backslash outside of single quotes takes the next byte with it.
abbrev pub escapes : ℕ → Split → Bool
escapes c s = if s.in_single then false else c == 92

unfoldable pub split_loop : Text → Split → Split
unfolding plain_byte
split_loop [] s = s
split_loop (c ∷ []) s = if escapes c s then s else plain_byte c s
split_loop (c ∷ d ∷ r) s =
    let escaped = split_loop r (write_byte d s) in
    let plain = split_loop (d ∷ r) (plain_byte c s) in if escapes c s then escaped else plain

unfoldable pub split_shell_args : Text → List Text
unfolding split_loop
split_shell_args s = (flush (split_loop s start)).out
