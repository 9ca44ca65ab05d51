-- ===== src/Handbrake/Lines.antt =====
-- internal/handbrake/handbrake.go: splitOnCRorLF, the split function of the log scanner, and the loop
-- of the scanner over it at the end of the input.
use mathlib.Core.List.{append-nil}
use recodarr.Prelude.{
  length-drop, ℕ, zero, suc, ◌≤◌, ◌<◌, ◌≡◌, refl, ap, Bool, true, false, not, ◌&&◌, ◌||◌, Text,
  List, [], ◌∷◌, ◌++◌, Option, none, some, length, take, drop, keep, ltb, ◌==◌, if◌then◌else◌,
  arith, Option-cases, inl, inr,
}

abbrev pub is_newline : ℕ → Bool
is_newline b = b == 10 || b == 13

-- The index of the first line end.
unfoldable pub newline_at : Text → Option ℕ
newline_at [] = none
newline_at (b ∷ rest) =
    if is_newline b then some 0 else elim (newline_at rest) [ none ↦ none | some i ↦ some (suc i) ]

-- How far to advance, and the token; the error is always nil.
abbrev pub split_at : Option ℕ → Text → Bool → ℕ × Option Text
split_at (some i) text at_eof = (suc i, some (take i text))
split_at none text at_eof =
    if at_eof && ltb 0 (length text) then (length text, some text) else (0, none)

unfoldable pub split_on_cr_or_lf : Text → Bool → ℕ × Option Text
unfolding newline_at
split_on_cr_or_lf text at_eof = split_at (newline_at text) text at_eof

-- The scanner at the end of the input: one round for each token, on fuel.
unfoldable pub scan_lines : ℕ → Text → List Text
scan_lines zero text = []
scan_lines (suc f) text =
    let (advance, token) = split_on_cr_or_lf text true in
    elim token [ none ↦ [] | some t ↦ t ∷ scan_lines f (drop advance text) ]

abbrev pub concat : List Text → Text
concat [] = []
concat (t ∷ ts) = t ++ concat ts

-- The bytes of a text that end no line.
abbrev pub without_newlines : Text → Text
without_newlines = keep (λ b. not (is_newline b))

newline_at-none : (s : Text) → newline_at s ≡ none → without_newlines s ≡ s
unfolding newline_at
newline_at-none [] h = refl
newline_at-none (b ∷ s) h = ground (arith, newline_at-none s)

newline_at-some :
    (s : Text) (i : ℕ)
    → newline_at s ≡ some i
    → without_newlines s ≡ take i s ++ without_newlines (drop (suc i) s)
unfolding newline_at
newline_at-some [] i h = cc
newline_at-some (b ∷ s) zero h = ground arith
newline_at-some (b ∷ s) (suc i) h = ground (arith, newline_at-some s i)

newline_at-bound : (s : Text) (i : ℕ) → newline_at s ≡ some i → i < length s
unfolding newline_at
newline_at-bound [] i h = cc
newline_at-bound (b ∷ s) zero h = omega arith
newline_at-bound (b ∷ s) (suc i) h = ground (arith, newline_at-bound s i)

length-zero : (s : Text) → ltb 0 (length s) ≡ false → s ≡ []
length-zero [] h = refl
length-zero (b ∷ s) h = ground arith

drop-length : (s : Text) → drop (length s) s ≡ []
drop-length [] = refl
drop-length (b ∷ s) = drop-length s

scan_lines-nil : (f : ℕ) → scan_lines f [] ≡ []
unfolding scan_lines split_on_cr_or_lf
scan_lines-nil zero = refl
scan_lines-nil (suc f) = refl

scan_lines-some :
    (f i : ℕ) (s : Text)
    → newline_at s ≡ some i
    → scan_lines (suc f) s ≡ take i s ∷ scan_lines f (drop (suc i) s)
unfolding scan_lines split_on_cr_or_lf
scan_lines-some f i s h = ground arith

scan_lines-none :
    (f : ℕ) (s : Text)
    → newline_at s ≡ none
    → scan_lines (suc f) s ≡ (if ltb 0 (length s) then s ∷ [] else [])
unfolding scan_lines split_on_cr_or_lf
scan_lines-none f s h = ground (arith, drop-length s, scan_lines-nil f)

-- The scanner loses no byte of the log: with a round for each byte, its tokens are together the log
-- without its line ends.
pub concat-scan_lines :
    (f : ℕ) (s : Text) → length s ≤ f → concat (scan_lines f s) ≡ without_newlines s
concat-scan_lines zero [] h = unfold scan_lines in refl
concat-scan_lines zero (b ∷ s) h = absurd (omega arith)
concat-scan_lines (suc f) s h = elim (Option-cases (newline_at s)) [
  | inl e ↦
      rw (scan_lines-none f s e, newline_at-none s e) (ground (arith, length-zero s, append-nil s))
  | inr (i, e) ↦
      rw (scan_lines-some f i s e, newline_at-some s i e)
        (ap (λ t. take i s ++ t)
          (concat-scan_lines f (drop (suc i) s)
            (omega (arith, length-drop (suc i) s, newline_at-bound s i e))))
]
