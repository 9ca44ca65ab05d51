-- ===== src/Prelude/Paths.antt =====
-- path/filepath on Unix, over the bytes of a path: Base, Dir, Ext, Clean, Join, IsAbs, and
-- strings.Split by a byte.
use Prim.Native.Nat.{ℕ}
use mathlib.Core.Bool.{Bool, true, false, ◌&&◌}
use mathlib.Core.List.{List, [], ◌∷◌, ◌++◌}
use recodarr.Prelude.Tests.{◌==◌, if◌then◌else◌}
use recodarr.Prelude.Strings.{Text, codes, text_eq}

abbrev pub slash : ℕ
slash = b'/'

abbrev pub is_empty {ℓ} : {A : Type ℓ} → List A → Bool
is_empty [] = true
is_empty (x ∷ xs) = false

abbrev push_head : ℕ → List Text → List Text
push_head c [] = (c ∷ []) ∷ []
push_head c (t ∷ ts) = (c ∷ t) ∷ ts

-- `strings.Split(s, sep)` at a separator of one byte
unfoldable pub split_by : ℕ → Text → List Text
split_by sep [] = [] ∷ []
split_by sep (c ∷ s) = let rest = split_by sep s in if c == sep then [] ∷ rest else push_head c rest

-- The path without its trailing slashes.
unfoldable pub strip_slashes : Text → Text
strip_slashes [] = []
strip_slashes (c ∷ s) =
    let rest = strip_slashes s in if is_empty rest && c == slash then [] else c ∷ rest

-- What follows the last slash.
unfoldable pub after_slash : Text → Text → Text
after_slash cur [] = cur
after_slash cur (c ∷ s) = after_slash (if c == slash then [] else cur ++ c ∷ []) s

abbrev pub base_of : Text → Text
base_of [] = slash ∷ []
base_of (c ∷ s) = after_slash [] (c ∷ s)

unfoldable pub base : Text → Text
unfolding strip_slashes after_slash
base [] = b'.' ∷ []
base (c ∷ s) = base_of (strip_slashes (c ∷ s))

-- The path up to its last slash, the slash included.
unfoldable pub up_to_slash : Text → Text
up_to_slash [] = []
up_to_slash (c ∷ s) =
    let rest = up_to_slash s in
    if is_empty rest then (if c == slash then slash ∷ [] else []) else c ∷ rest

-- What an element `..` does to the elements before it.
abbrev clean_up : Bool → List Text → List Text
clean_up rooted [] = if rooted then [] else codes ".." ∷ []
clean_up rooted (u ∷ us) = if text_eq u (codes "..") then codes ".." ∷ u ∷ us else us

abbrev pub clean_push : Bool → List Text → Text → List Text
clean_push rooted stack u =
    if is_empty u
    then stack
    else if text_eq u (codes ".")
    then stack
    else if text_eq u (codes "..")
    then clean_up rooted stack
    else u ∷ stack

-- The elements kept by Clean, the last one first.
unfoldable pub clean_elements : Bool → List Text → List Text → List Text
clean_elements rooted stack [] = stack
clean_elements rooted stack (t ∷ ts) = clean_elements rooted (clean_push rooted stack t) ts

-- The elements of a stack, joined by slashes.
unfoldable pub join_elements : List Text → Text
join_elements [] = []
join_elements (t ∷ []) = t
join_elements (t ∷ u ∷ us) = join_elements (u ∷ us) ++ slash ∷ t

unfoldable pub is_abs : Text → Bool
is_abs [] = false
is_abs (c ∷ s) = c == slash

abbrev pub or_dot : Text → Text
or_dot [] = b'.' ∷ []
or_dot (c ∷ s) = c ∷ s

unfoldable pub clean : Text → Text
unfolding clean_elements join_elements is_abs split_by
clean p =
    let elements = clean_elements (is_abs p) [] (split_by slash p) in
    if is_abs p then slash ∷ join_elements elements else or_dot (join_elements elements)

unfoldable pub dir : Text → Text
unfolding clean up_to_slash
dir p = clean (up_to_slash p)

-- `filepath.Join(d, e)`
unfoldable pub join : Text → Text → Text
unfolding clean
join [] [] = []
join [] (c ∷ e) = clean (c ∷ e)
join (c ∷ d) [] = clean (c ∷ d)
join (c ∷ d) (b ∷ e) = clean ((c ∷ d) ++ slash ∷ b ∷ e)

-- The suffix from the last dot of the last element.
unfoldable pub ext_from : Text → Text → Text
ext_from found [] = found
ext_from found (c ∷ s) = ext_from (if c == slash then [] else if c == b'.' then c ∷ s else found) s

unfoldable pub ext : Text → Text
unfolding ext_from
ext = ext_from []
