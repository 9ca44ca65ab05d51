-- ===== src/Files.antt =====
-- The files of the file system, as package os shows them to the program: a path has a size, or there
-- is no file. An operation that fails changes nothing.
use recodarr.Prelude.{
  ℕ, ◌≡◌, false, Text, text_eq, text_eq_refl, Option, none, if◌then◌else◌, arith,
}

abbrev pub Files : Type 0
Files = Text → Option ℕ

unfoldable pub write : Text → Option ℕ → Files → Files
write p v fs q = if text_eq p q then v else fs q

-- `os.Remove`, whose error the program drops.
unfoldable pub remove : Text → Files → Files
unfolding write
remove p = write p none

-- `os.Rename(from, to)` when it succeeds.
unfoldable pub rename : Text → Text → Files → Files
unfolding write
rename from to fs = write to (fs from) (write from none fs)

pub write_self : (p : Text) (v : Option ℕ) (fs : Files) → write p v fs p ≡ v
unfolding write
write_self p v fs = ground (arith, text_eq_refl p)

pub write_other :
    (p q : Text) (v : Option ℕ) (fs : Files) → text_eq p q ≡ false → write p v fs q ≡ fs q
unfolding write
write_other p q v fs h = rw h
