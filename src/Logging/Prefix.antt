-- ===== src/Logging/Prefix.antt =====
-- internal/logging/logging.go: how the log of HandBrake is cut into writes does not matter.
use mathlib.Core.List.{append_assoc}
use recodarr.Prelude.{
  ℕ, ◌≡◌, refl, sym, ap, ◌∙◌, Bool, true, false, Text, List, [], ◌∷◌, ◌++◌, if◌then◌else◌,
  Bool-cases, inl, inr,
}
use recodarr.Logging.{PrefixingWriter, is_eol, prefixed, write, new_prefixing_writer}

-- Writes that succeed, one after the other: all that the writer below gets, and the writer.
pub write_all : List Text → PrefixingWriter → Text × PrefixingWriter
write_all [] p = ([], p)
write_all (b ∷ bs) p =
    let (n, p', out) = write false b p in let (rest, last) = write_all bs p' in (out ++ rest, last)

pub concat : List Text → Text
concat [] = []
concat (b ∷ bs) = b ++ concat bs

-- The lines of a text, each with the byte that ends it, the last one perhaps without.
abbrev put_first : ℕ → List Text → List Text
put_first c [] = (c ∷ []) ∷ []
put_first c (l ∷ ls) = (c ∷ l) ∷ ls

pub lines : Text → List Text
lines [] = []
lines (c ∷ b) = if is_eol c then (c ∷ []) ∷ lines b else put_first c (lines b)

pub prefix_each : Text → List Text → Text
prefix_each prefix [] = []
prefix_each prefix (l ∷ ls) = prefix ++ (l ++ prefix_each prefix ls)

-- What is written after the start of a line: the rest of the line has no prefix.
abbrev after_first : Text → List Text → Text
after_first prefix [] = []
after_first prefix (l ∷ ls) = l ++ prefix_each prefix ls

prefix_each-put_first :
    (prefix : Text) (c : ℕ) (ls : List Text)
    → prefix_each prefix (put_first c ls) ≡ prefix ++ c ∷ after_first prefix ls
unfolding prefix_each
prefix_each-put_first prefix c [] = refl
prefix_each-put_first prefix c (l ∷ ls) = refl

after_first-put_first :
    (prefix : Text) (c : ℕ) (ls : List Text)
    → after_first prefix (put_first c ls) ≡ c ∷ after_first prefix ls
unfolding prefix_each
after_first-put_first prefix c [] = refl
after_first-put_first prefix c (l ∷ ls) = refl

abbrev expected : Text → Bool → List Text → Text
expected prefix true ls = prefix_each prefix ls
expected prefix false ls = after_first prefix ls

prefixed-lines :
    (prefix : Text) (at_eol : Bool) (b : Text)
    → (prefixed prefix at_eol b).0 ≡ expected prefix at_eol (lines b)
unfolding prefixed lines prefix_each
prefixed-lines prefix true [] = refl
prefixed-lines prefix false [] = refl
prefixed-lines prefix true (c ∷ b) = elim (Bool-cases (is_eol c)) [
  | inl e ↦ rw e (ap (λ t. prefix ++ c ∷ t) (prefixed-lines prefix true b))
  | inr e ↦ rw e (
      ap (λ t. prefix ++ c ∷ t) (prefixed-lines prefix false b)
      ∙ sym (prefix_each-put_first prefix c (lines b)))
]
prefixed-lines prefix false (c ∷ b) = elim (Bool-cases (is_eol c)) [
  | inl e ↦ rw e (ap (λ t. c ∷ t) (prefixed-lines prefix true b))
  | inr e ↦ rw e (
      ap (λ t. c ∷ t) (prefixed-lines prefix false b)
      ∙ sym (after_first-put_first prefix c (lines b)))
]

prefixed-append :
    (prefix : Text) (at_eol : Bool) (a b : Text)
    → prefixed prefix at_eol (a ++ b) ≡ (
      (prefixed prefix at_eol a).0 ++ (prefixed prefix (prefixed prefix at_eol a).1 b).0,
      (prefixed prefix (prefixed prefix at_eol a).1 b).1,
    )
unfolding prefixed
prefixed-append prefix at_eol [] b = refl
prefixed-append prefix at_eol (c ∷ a) b =
    let first = prefixed prefix (is_eol c) a in
    let second = prefixed prefix first.1 b in
    let start : Text = if at_eol then prefix else [] in
    ap (λ x. (start ++ c ∷ x.0, x.1)) (prefixed-append prefix (is_eol c) a b)
    ∙ ap (λ t. (t, second.1)) (sym (append_assoc start (c ∷ first.0) second.0))

write_lem :
    (b : Text) (p : PrefixingWriter)
    → (write false b p).1 ≡ record p { at_eol = (prefixed p.prefix p.at_eol b).1 }
unfolding write prefixed
write_lem [] p = refl
write_lem (c ∷ b) p = refl

write-out :
    (b : Text) (p : PrefixingWriter) → (write false b p).2 ≡ (prefixed p.prefix p.at_eol b).0
unfolding write prefixed
write-out [] p = refl
write-out (c ∷ b) p = refl

prefixed_nil : (prefix : Text) (at_eol : Bool) → (prefixed prefix at_eol []).0 ≡ []
unfolding prefixed
prefixed_nil prefix at_eol = refl

write_all-prefixed :
    (bs : List Text) (p : PrefixingWriter)
    → (write_all bs p).0 ≡ (prefixed p.prefix p.at_eol (concat bs)).0
unfolding write_all concat
write_all-prefixed [] p = sym (prefixed_nil p.prefix p.at_eol)
write_all-prefixed (b ∷ bs) p =
    let q = (write false b p).1 in
    ap (λ t. t ++ (write_all bs q).0) (write-out b p)
    ∙ ap (λ t. (prefixed p.prefix p.at_eol b).0 ++ t)
        (write_all-prefixed bs q
          ∙ ap (λ r. (prefixed r.prefix r.at_eol (concat bs)).0) (write_lem b p))
    ∙ sym (ap (λ x. x.0) (prefixed-append p.prefix p.at_eol b (concat bs)))

-- However the log is cut into writes, if none fails, what is written is each line of the whole log with
-- the prefix.
pub write_all-lines :
    (prefix : Text) (bs : List Text)
    → (write_all bs (new_prefixing_writer prefix)).0 ≡ prefix_each prefix (lines (concat bs))
write_all-lines prefix bs =
    write_all-prefixed bs (new_prefixing_writer prefix) ∙ prefixed-lines prefix true (concat bs)
