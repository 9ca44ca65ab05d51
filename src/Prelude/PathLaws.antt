-- ===== src/Prelude/PathLaws.antt =====
-- Laws of paths: what Join with one more element does to Base.
use recodarr.Prelude.{
  ℕ, ◌≡◌, refl, ap, sym, ◌∙◌, Bool, true, false, Text, codes, text_eq, List, [], ◌∷◌, ◌++◌, arith,
  ◌==◌, if◌then◌else◌,
}
use mathlib.Core.Bool.{false≢true}
use mathlib.Core.List.{append_assoc, append-nil}
use recodarr.Prelude.Paths.{
  slash, is_empty, split_by, strip_slashes, after_slash, base, clean_push, clean_elements,
  join_elements, is_abs, or_dot, clean, join,
}

-- No slash in a text.
abbrev pub has_byte : ℕ → Text → Bool
has_byte b [] = false
has_byte b (c ∷ s) = if c == b then true else has_byte b s

split_by-slashfree : (sep : ℕ) (x : Text) → has_byte sep x ≡ false → split_by sep x ≡ x ∷ []
unfolding split_by
split_by-slashfree sep [] h = refl
split_by-slashfree sep (c ∷ x) h = ground (arith, split_by-slashfree sep x)

split_by-ne-nil : (sep : ℕ) (s : Text) → is_empty (split_by sep s) ≡ false
unfolding split_by
split_by-ne-nil sep [] = refl
split_by-ne-nil sep (c ∷ s) = ground (arith, split_by-ne-nil sep s)

pub split_by-append :
    (sep : ℕ) (a x : Text)
    → has_byte sep x ≡ false
    → split_by sep (a ++ sep ∷ x) ≡ split_by sep a ++ x ∷ []
unfolding split_by
split_by-append sep [] x h = ground (arith, split_by-slashfree sep x h)
split_by-append sep (c ∷ a) x h = ground (arith, split_by-append sep a x h, split_by-ne-nil sep a)

clean_elements-append :
    (rooted : Bool) (stack ts : List Text) (x : Text)
    → clean_elements rooted stack (ts ++ x ∷ [])
      ≡ clean_push rooted (clean_elements rooted stack ts) x
unfolding clean_elements
clean_elements-append rooted stack [] x = refl
clean_elements-append rooted stack (t ∷ ts) x =
    clean_elements-append rooted (clean_push rooted stack t) ts x

-- A text that is the name of a file: not empty, without a slash, and neither `.` nor `..`.
pub record IsFileName (x : Text) : Type 0 where
  pub filled : is_empty x ≡ false
  pub flat : has_byte slash x ≡ false
  pub proper : (text_eq x (codes ".") ≡ false) × (text_eq x (codes "..") ≡ false)

after_slash-append : (cur a x : Text) → after_slash cur (a ++ slash ∷ x) ≡ after_slash [] x
unfolding after_slash
after_slash-append cur [] x = refl
after_slash-append cur (c ∷ a) x = after_slash-append (if c == slash then [] else cur ++ c ∷ []) a x

after_slash-flat : (cur x : Text) → has_byte slash x ≡ false → after_slash cur x ≡ cur ++ x
unfolding after_slash
after_slash-flat cur [] h = sym (append-nil cur)
after_slash-flat cur (c ∷ x) h =
    ground (arith, after_slash-flat (cur ++ c ∷ []) x, append_assoc cur (c ∷ []) x)

is_empty-append : (a x : Text) → is_empty x ≡ false → is_empty (a ++ x) ≡ false
is_empty-append [] x e = e
is_empty-append (c ∷ a) x e = refl

strip_slashes-flat :
    (x : Text) → is_empty x ≡ false → has_byte slash x ≡ false → strip_slashes x ≡ x
unfolding strip_slashes
strip_slashes-flat [] e h = refl
strip_slashes-flat (c ∷ []) e h = ground arith
strip_slashes-flat (c ∷ d ∷ x) e h = ground (arith, strip_slashes-flat (d ∷ x))

strip_slashes-append :
    (a x : Text)
    → is_empty x ≡ false
    → has_byte slash x ≡ false
    → strip_slashes (a ++ slash ∷ x) ≡ a ++ slash ∷ x
unfolding strip_slashes
strip_slashes-append [] x e h = rw (strip_slashes-flat x e h, e)
strip_slashes-append (c ∷ a) x e h =
    rw (strip_slashes-append a x e h, is_empty-append a (slash ∷ x) refl)

base-cons :
    (c : ℕ) (s : Text) → strip_slashes (c ∷ s) ≡ c ∷ s → base (c ∷ s) ≡ after_slash [] (c ∷ s)
unfolding base
base-cons c s h = rw h

pub base-flat : (x : Text) → is_empty x ≡ false → has_byte slash x ≡ false → base x ≡ x
base-flat [] e h = cc
base-flat (c ∷ x) e h =
    base-cons c x (strip_slashes-flat (c ∷ x) e h) ∙ after_slash-flat [] (c ∷ x) h

pub base-append :
    (a x : Text) → is_empty x ≡ false → has_byte slash x ≡ false → base (a ++ slash ∷ x) ≡ x
base-append [] x e h =
    base-cons slash x (strip_slashes-append [] x e h)
    ∙ after_slash-append [] [] x
    ∙ after_slash-flat [] x h
base-append (c ∷ a) x e h =
    base-cons c (a ++ slash ∷ x) (strip_slashes-append (c ∷ a) x e h)
    ∙ after_slash-append [] (c ∷ a) x
    ∙ after_slash-flat [] x h

-- Clean of a path that ends in a file name: the name alone, or some path, a slash, and the name.
data Ends (x : Text) : Text → Type 0 where
  alone : Ends x x
  below : (a : Text) → Ends x (a ++ slash ∷ x)

base-Ends : (x t : Text) → IsFileName x → Ends x t → base t ≡ x
base-Ends x _ n alone = base-flat x n.filled n.flat
base-Ends x _ n (below a) = base-append a x n.filled n.flat

push_name :
    (rooted : Bool) (stack : List Text) (x : Text)
    → IsFileName x
    → clean_push rooted stack x ≡ x ∷ stack
push_name rooted stack x n = rw (n.filled, n.proper.0, n.proper.1)

rooted-Ends : (x : Text) (stack : List Text) → Ends x (slash ∷ join_elements (x ∷ stack))
unfolding join_elements
rooted-Ends x [] = below []
rooted-Ends x (u ∷ us) = below (slash ∷ join_elements (u ∷ us))

relative-Ends :
    (x : Text) (stack : List Text)
    → is_empty x ≡ false
    → Ends x (or_dot (join_elements (x ∷ stack)))
unfolding join_elements
relative-Ends [] stack e = cc
relative-Ends (c ∷ x) [] e = alone
relative-Ends (c ∷ x) (u ∷ us) e = or_dot-Ends (join_elements (u ∷ us)) (c ∷ x)
  where
    or_dot-Ends : (j y : Text) → Ends y (or_dot (j ++ slash ∷ y))
    or_dot-Ends [] y = below []
    or_dot-Ends (d ∷ j) y = below (d ∷ j)

elements-Ends :
    (x : Text) (rooted : Bool) (stack elements : List Text)
    → IsFileName x
    → elements ≡ x ∷ stack
    → Ends x (if rooted then slash ∷ join_elements elements else or_dot (join_elements elements))
elements-Ends x true stack elements n e = rw e (rooted-Ends x stack)
elements-Ends x false stack elements n e = rw e (relative-Ends x stack n.filled)

clean-Ends : (x a : Text) → IsFileName x → Ends x (clean (a ++ slash ∷ x))
unfolding clean
clean-Ends x a n = elements-Ends x (is_abs (a ++ slash ∷ x)) _ _ n (
    ap (clean_elements (is_abs (a ++ slash ∷ x)) []) (split_by-append slash a x n.flat)
    ∙ clean_elements-append (is_abs (a ++ slash ∷ x)) [] (split_by slash a) x
    ∙ push_name (is_abs (a ++ slash ∷ x)) _ x n)

clean_name-Ends : (x : Text) → IsFileName x → Ends x (clean x)
unfolding clean
clean_name-Ends x n = elements-Ends x (is_abs x) _ _ n (
    ap (clean_elements (is_abs x) []) (split_by-slashfree slash x n.flat)
    ∙ push_name (is_abs x) [] x n)

join-Ends : (d x : Text) → IsFileName x → Ends x (join d x)
unfolding join
join-Ends [] [] n = absurd (false≢true (sym n.filled))
join-Ends (c ∷ d) [] n = absurd (false≢true (sym n.filled))
join-Ends [] (b ∷ x) n = clean_name-Ends (b ∷ x) n
join-Ends (c ∷ d) (b ∷ x) n = clean-Ends (b ∷ x) (c ∷ d) n

-- The last element of a joined path is the name that was joined.
pub base-join : (d x : Text) → IsFileName x → base (join d x) ≡ x
base-join d x n = base-Ends x (join d x) n (join-Ends d x n)
