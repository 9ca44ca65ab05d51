-- ===== src/Handbrake/Temp.antt =====
-- internal/handbrake/handbrake.go: TempPrefix, TempPath and IsTempPath.
use recodarr.Prelude.{
  length-append, ◌<◌, text_eq_iff, length, ◌≡◌, refl, Bool, true, false, ◌&&◌, Text, codes, text_eq,
  has_prefix, has_prefix-append, contains_text, [], ◌∷◌, ◌++◌, arith, ◌==◌, if◌then◌else◌,
  Bool-cases, inl, inr, sym, ◌∙◌, ℕ, ap,
}
use mathlib.Core.List.{append_assoc}
use recodarr.Prelude.Paths.{
  base, base_of, ext, ext_from, dir, join, slash, after_slash, strip_slashes,
}
use recodarr.Prelude.PathLaws.{has_byte, IsFileName, base-join}

abbrev pub temp_marker : Text
temp_marker = codes ".recodarr.tmp"

unfoldable pub temp_prefix : Text → Text
temp_prefix b = (b'.' ∷ b) ++ temp_marker

unfoldable pub temp_path : Text → Text → Text
unfolding temp_prefix
temp_path input container_format =
    let b = base input in
    let e = if text_eq container_format (codes "mp4") then codes ".mp4" else ext b in
    join (dir input) (temp_prefix b ++ e)

unfoldable pub is_temp_path : Text → Bool
is_temp_path p = has_prefix (base p) (b'.' ∷ []) && contains_text (base p) temp_marker

has_byte-append :
    (c : ℕ) (a b : Text) → has_byte c a ≡ false → has_byte c b ≡ false → has_byte c (a ++ b) ≡ false
has_byte-append c [] b ha hb = hb
has_byte-append c (d ∷ a) b ha hb = ground (arith, has_byte-append c a b)

after_slash-flat :
    (cur s : Text) → has_byte slash cur ≡ false → has_byte slash (after_slash cur s) ≡ false
unfolding after_slash
after_slash-flat cur [] h = h
after_slash-flat cur (c ∷ s) h = elim (Bool-cases (c == slash)) [
  | inl e ↦ rw e (after_slash-flat [] s refl)
  | inr e ↦
      rw e
        (after_slash-flat (cur ++ c ∷ []) s (has_byte-append slash cur (c ∷ []) h (ground arith)))
]

ext_from-flat :
    (found s : Text)
    → has_byte slash found ≡ false
    → has_byte slash s ≡ false
    → has_byte slash (ext_from found s) ≡ false
unfolding ext_from
ext_from-flat found [] hf hs = hf
ext_from-flat found (c ∷ s) hf hs =
    ext_from-flat (if c == slash then [] else if c == b'.' then c ∷ s else found) s (ground arith)
      (ground arith)

base-flat : (p : Text) → text_eq (base p) (slash ∷ []) ≡ false → has_byte slash (base p) ≡ false
unfolding base text_eq
base-flat [] h = refl
base-flat (c ∷ s) h = flat (strip_slashes (c ∷ s)) h
  where
    flat :
        (t : Text) → text_eq (base_of t) (slash ∷ []) ≡ false → has_byte slash (base_of t) ≡ false
    flat [] k = cc
    flat (d ∷ t) k = after_slash-flat [] (d ∷ t) refl

contains_text-prefix : (m s : Text) → contains_text (m ++ s) m ≡ true
unfolding contains_text
contains_text-prefix [] [] = refl
contains_text-prefix [] (c ∷ s) = refl
contains_text-prefix (c ∷ m) s = rw (has_prefix-append (c ∷ m) s)

contains_text-append : (a m s : Text) → contains_text (a ++ (m ++ s)) m ≡ true
unfolding contains_text
contains_text-append [] m s = contains_text-prefix m s
contains_text-append (c ∷ a) m s = ground (arith, contains_text-append a m s)

-- The name under which an encode of a file named `b` is written.
abbrev temp_name : Text → Text → Text
temp_name b e = (b'.' ∷ b) ++ (temp_marker ++ e)

temp_name-proper :
    (b e : Text)
    → (text_eq (temp_name b e) (codes ".") ≡ false) × (text_eq (temp_name b e) (codes "..") ≡ false)
unfolding text_eq
temp_name-proper [] e = (refl, refl)
temp_name-proper (c ∷ []) e = (refl, ground arith)
temp_name-proper (c ∷ d ∷ b) e = (refl, ground arith)

temp_name-IsFileName :
    (b e : Text) → has_byte slash b ≡ false → has_byte slash e ≡ false → IsFileName (temp_name b e)
temp_name-IsFileName b e hb he = record {
  filled = refl;
  flat = has_byte-append slash b (temp_marker ++ e) hb he;
  proper = temp_name-proper b e;
}

is_temp_path-named : (p b e : Text) → base p ≡ temp_name b e → is_temp_path p ≡ true
unfolding is_temp_path
is_temp_path-named p b e h = rw (
  h,
  has_prefix-append (b'.' ∷ []) (b ++ (temp_marker ++ e)),
  contains_text-append (b'.' ∷ b) temp_marker e,
)

-- The extension of the temporary file.
abbrev temp_ext : Text → Text → Text
temp_ext b container_format = if text_eq container_format (codes "mp4") then codes ".mp4" else ext b

temp_ext-flat :
    (b container_format : Text)
    → has_byte slash b ≡ false
    → has_byte slash (temp_ext b container_format) ≡ false
unfolding ext
temp_ext-flat b container_format h = elim (Bool-cases (text_eq container_format (codes "mp4"))) [
  | inl e ↦ rw e refl
  | inr e ↦ rw e (ext_from-flat [] b refl h)
]

base-temp_path :
    (input container_format : Text)
    → text_eq (base input) (slash ∷ []) ≡ false
    → base (temp_path input container_format)
      ≡ temp_name (base input) (temp_ext (base input) container_format)
unfolding temp_path
base-temp_path input container_format h =
    let flat = base-flat input h in
    let e = temp_ext (base input) container_format in
    ap (λ t. base (join (dir input) t)) (append_assoc (b'.' ∷ base input) temp_marker e)
    ∙ base-join (dir input) (temp_name (base input) e) (
        temp_name-IsFileName (base input) e flat (temp_ext-flat (base input) container_format flat))

-- Every path at which the encoder writes is recognised as the path of a temporary file, if the input
-- is not the root directory: so no scan of a library takes an encode in flight for a media file.
pub is_temp_path-temp_path :
    (input container_format : Text)
    → text_eq (base input) (slash ∷ []) ≡ false
    → is_temp_path (temp_path input container_format) ≡ true
is_temp_path-temp_path input container_format h =
    is_temp_path-named _ (base input) (temp_ext (base input) container_format)
      (base-temp_path input container_format h)

length-temp_name : (b e : Text) → length b < length (temp_name b e)
length-temp_name b e =
    omega (arith, length-append (b'.' ∷ b) (temp_marker ++ e), length-append temp_marker e)

-- The temporary file is never the input itself.
pub temp_path-ne :
    (input container_format : Text)
    → text_eq (base input) (slash ∷ []) ≡ false
    → text_eq (temp_path input container_format) input ≡ false
temp_path-ne input container_format h =
    elim (Bool-cases (text_eq (temp_path input container_format) input)) [
      | inr e ↦ e
      | inl e ↦
          let same = ap base ((text_eq_iff (temp_path input container_format) input).0 e) in
          absurd (
            omega (
              arith,
              length-temp_name (base input) (temp_ext (base input) container_format),
              ap length (sym (base-temp_path input container_format h) ∙ same),
            ))
    ]
