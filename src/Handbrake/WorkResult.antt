-- ===== src/Handbrake/WorkResult.antt =====
-- internal/handbrake/handbrake.go: parseWorkResult.
use recodarr.Prelude.{
  ◌≡◌, sym, ap, ◌∙◌, Option-cases, inl, inr, Bool, true, false, ◌||◌, Text, codes, has_prefix, [],
  ◌∷◌, ◌++◌, Option, none, some, length, drop, ◌==◌, if◌then◌else◌,
}
use recodarr.Prelude.Numbers.{atoi, is_digit}
use recodarr.Prelude.Int.{ℤ}

abbrev pub marker : Text
marker = codes "work result = "

-- The text after the last occurrence of the marker, if there is one.
unfoldable pub after_last : Text → Option Text
after_last [] = none
after_last (c ∷ s) = elim (after_last s) [
  | some rest ↦ some rest
  | none ↦ if has_prefix (c ∷ s) marker then some (drop (length marker) (c ∷ s)) else none
]

-- `rest[:end]`
unfoldable pub number_prefix : Text → Text
number_prefix [] = []
number_prefix (c ∷ s) = if c == b'-' || is_digit c then c ∷ number_prefix s else []

abbrev parsed : ℤ × Bool → Option ℤ
parsed (n, true) = some n
parsed (n, false) = none

abbrev parse_number : Text → Option ℤ
parse_number [] = none
parse_number (c ∷ s) = parsed (atoi (c ∷ s))

abbrev parse_after : Option Text → Option ℤ
parse_after none = none
parse_after (some rest) = parse_number (number_prefix rest)

-- `none` stands for `(0, false)`.
unfoldable pub parse_work_result : Text → Option ℤ
unfolding after_last number_prefix
parse_work_result log = elim (after_last log) [
  | none ↦ none
  | some rest ↦ parse_number (number_prefix rest)
]

after_last-append : (a s : Text) → (r : Text) → after_last s ≡ some r → after_last (a ++ s) ≡ some r
unfolding after_last
after_last-append [] s r h = h
after_last-append (c ∷ a) s r h = rw (after_last-append a s r h)

-- What is logged before the last result does not matter: a result that is found in the end of a log is
-- the result of the log.
pub parse_work_result-append :
    (a s : Text) (n : ℤ) → parse_work_result s ≡ some n → parse_work_result (a ++ s) ≡ some n
unfolding parse_work_result
parse_work_result-append a s n h = elim (Option-cases (after_last s)) [
  | inl e ↦ cc (ap parse_after e)
  | inr (r, e) ↦ ap parse_after (after_last-append a s r e ∙ sym e) ∙ h
]
