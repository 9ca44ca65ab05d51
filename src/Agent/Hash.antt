-- ===== src/Agent/Hash.antt =====
-- internal/agent/hash.go: which bytes of a file HashFile reads. The hash itself is a library's.
use recodarr.Prelude.{ℕ, ◌+◌, ◌-◌, ◌*◌, ◌/◌, ◌≤◌, ◌≡◌, List, [], ◌∷◌, leb, if◌then◌else◌, arith}

-- 4 << 20
abbrev pub hash_sample_window : ℕ
hash_sample_window = 4194304

abbrev pub Range : Type 0
Range = ℕ × ℕ

-- The ranges that are hashed, as offset and length, of a file of the size.
unfoldable pub hashed_ranges : ℕ → List Range
hashed_ranges size =
    if leb size (3 * hash_sample_window)
    then (0, size) ∷ []
    else (0, hash_sample_window)
      ∷ (size / 2 - hash_sample_window / 2, hash_sample_window)
      ∷ (size - hash_sample_window, hash_sample_window)
      ∷ []

-- The ranges follow each other without an overlap, and end at the end of the file.
abbrev pub EndsAt : ℕ → ℕ → List Range → Type 0
EndsAt size from [] = from ≡ size
EndsAt size from ((offset, n) ∷ l) = (from ≤ offset) × EndsAt size (offset + n) l

-- Every file is read from its start to its end in ranges that do not overlap and do not leave it; a
-- small file is read as a whole, a large one in three windows.
pub hashed_ranges-EndsAt : (size : ℕ) → EndsAt size 0 (hashed_ranges size)
unfolding hashed_ranges
hashed_ranges-EndsAt size = ground arith
