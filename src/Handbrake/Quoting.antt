-- ===== src/Handbrake/Quoting.antt =====
-- splitShellArgs reads back what a shell user quotes.
use recodarr.Prelude.{
  ℕ, ◌≡◌, refl, sym, ap, ◌∙◌, true, false, ◌||◌, Text, List, [], ◌∷◌, ◌++◌, ◌==◌, if◌then◌else◌,
  arith, Bool-cases, inl, inr,
}
use mathlib.Core.List.{append_assoc, append-nil}
use recodarr.Handbrake.ShellSplit.{
  Split, start, write_byte, flush, plain_byte, escapes, split_loop, split_shell_args,
}

-- An argument between double quotes: a backslash before each double quote and each backslash.
unfoldable pub escape : Text → Text
escape [] = []
escape (c ∷ s) = if c == b'"' || c == 92 then 92 ∷ c ∷ escape s else c ∷ escape s

unfoldable pub quote_args : List Text → Text
quote_args [] = []
quote_args (a ∷ rest) = b'"' ∷ escape a ++ b'"' ∷ 32 ∷ quote_args rest

-- The state within double quotes, after `cur`.
abbrev inside : List Text → Text → Split
inside out cur = record {
  out = out;
  cur = cur;
  in_single = false;
  in_double = true;
  has_token = true;
}

abbrev between : List Text → Split
between out = record start { out = out }

split_loop-plain :
    (c : ℕ) (r : Text) (s : Split)
    → escapes c s ≡ false
    → split_loop (c ∷ r) s ≡ split_loop r (plain_byte c s)
unfolding split_loop
split_loop-plain c [] s h = rw h
split_loop-plain c (d ∷ r) s h = rw h

split_loop-backslash :
    (c : ℕ) (r : Text) (s : Split)
    → escapes 92 s ≡ true
    → split_loop (92 ∷ c ∷ r) s ≡ split_loop r (write_byte c s)
unfolding split_loop
split_loop-backslash c r s h = rw h

plain_inside :
    (c : ℕ) (out : List Text) (cur : Text)
    → (c == b'"' || c == 92) ≡ false
    → plain_byte c (inside out cur) ≡ inside out (cur ++ c ∷ [])
unfolding plain_byte
plain_inside c out cur h = ground arith

split_loop-escape :
    (out : List Text) (cur a rest : Text)
    → split_loop (escape a ++ b'"' ∷ rest) (inside out cur)
      ≡ split_loop (b'"' ∷ rest) (inside out (cur ++ a))
unfolding escape
split_loop-escape out cur [] rest = rw (append-nil cur)
split_loop-escape out cur (c ∷ a) rest = elim (Bool-cases (c == b'"' || c == 92)) [
  | inl e ↦ rw e (
      split_loop-backslash c (escape a ++ b'"' ∷ rest) (inside out cur) refl
      ∙ split_loop-escape out (cur ++ c ∷ []) a rest
      ∙ ap (λ t. split_loop (b'"' ∷ rest) (inside out t)) (append_assoc cur (c ∷ []) a))
  | inr e ↦ rw e (
      split_loop-plain c (escape a ++ b'"' ∷ rest) (inside out cur) (ground arith)
      ∙ ap (split_loop (escape a ++ b'"' ∷ rest)) (plain_inside c out cur e)
      ∙ split_loop-escape out (cur ++ c ∷ []) a rest
      ∙ ap (λ t. split_loop (b'"' ∷ rest) (inside out t)) (append_assoc cur (c ∷ []) a))
]

plain_quote : (out : List Text) → plain_byte b'"' (between out) ≡ inside out []
unfolding plain_byte
plain_quote out = refl

plain_unquote :
    (out : List Text) (a : Text)
    → plain_byte b'"' (inside out a) ≡ record (between out) { cur = a; has_token = true }
unfolding plain_byte
plain_unquote out a = refl

plain_blank :
    (out : List Text) (a : Text)
    → plain_byte 32 (record (between out) { cur = a; has_token = true }) ≡ between (out ++ a ∷ [])
unfolding plain_byte
plain_blank out a = refl

split_loop-quoted :
    (out : List Text) (a rest : Text)
    → split_loop (b'"' ∷ escape a ++ b'"' ∷ 32 ∷ rest) (between out)
      ≡ split_loop rest (between (out ++ a ∷ []))
split_loop-quoted out a rest =
    split_loop-plain b'"' (escape a ++ b'"' ∷ 32 ∷ rest) (between out) refl
    ∙ ap (split_loop (escape a ++ b'"' ∷ 32 ∷ rest)) (plain_quote out)
    ∙ split_loop-escape out [] a (32 ∷ rest)
    ∙ split_loop-plain b'"' (32 ∷ rest) (inside out a) refl
    ∙ ap (split_loop (32 ∷ rest)) (plain_unquote out a)
    ∙ split_loop-plain 32 rest (record (between out) { cur = a; has_token = true }) refl
    ∙ ap (split_loop rest) (plain_blank out a)

split_loop-quote_args :
    (out args : List Text) → split_loop (quote_args args) (between out) ≡ between (out ++ args)
unfolding quote_args split_loop
split_loop-quote_args out [] = ap between (sym (append-nil out))
split_loop-quote_args out (a ∷ args) =
    split_loop-quoted out a (quote_args args)
    ∙ split_loop-quote_args (out ++ a ∷ []) args
    ∙ ap between (append_assoc out (a ∷ []) args)

-- Any list of arguments, each between double quotes with its double quotes and backslashes escaped,
-- is split into these arguments, empty ones included.
pub split_shell_args-quote_args : (args : List Text) → split_shell_args (quote_args args) ≡ args
unfolding split_shell_args
split_shell_args-quote_args args = ap (λ s. (flush s).out) (split_loop-quote_args [] args)
