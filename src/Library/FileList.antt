-- ===== src/Library/FileList.antt =====
-- internal/api/library.go: libraryFiles.
use recodarr.Prelude.{ℕ, Bool, List, Option, none, some, ltb, inl, inr}
use recodarr.Prelude.Order.{sort_by}
use recodarr.Store.Rows.{ArrInstanceRow}
use recodarr.Arr.{LibraryFile}
use recodarr.Library.{map, bitrate}
use recodarr.Library.AddTag.{TagWorld, TagRequest, Target, resolve_library_target}

-- A file with the rate that is computed of it.
pub record LibraryFileDto : Type 0 where
  pub file : LibraryFile
  pub bitrate_bps : ℕ
  pub bitrate_exact : Bool

unfoldable pub file_row : LibraryFile → LibraryFileDto
unfolding bitrate
file_row f = record {
  file = f;
  bitrate_bps = bitrate f.size f.runtime_seconds;
  bitrate_exact = ltb 0 (bitrate f.size f.runtime_seconds);
}

abbrev by_rate : LibraryFileDto → LibraryFileDto → Bool
by_rate a b = ltb b.bitrate_bps a.bitrate_bps

abbrev pub files_answer : Option (List LibraryFile) → ℕ × Option (List LibraryFileDto)
files_answer none = (502, none)
files_answer (some fs) = (200, some (sort_by by_rate (map file_row fs)))

abbrev pub files_at :
    (ArrInstanceRow → ℕ → Option (List LibraryFile)) → Target → ℕ × Option (List LibraryFileDto)
files_at files_of (inl code) = (code, none)
files_at files_of (inr (inst, item)) = files_answer (files_of inst item)

-- The code and the rows; `files_of` is what the service of an instance answers for an item.
unfoldable pub library_files :
    TagWorld
    → (ArrInstanceRow → ℕ → Option (List LibraryFile))
    → TagRequest
    → ℕ × Option (List LibraryFileDto)
unfolding resolve_library_target file_row sort_by
library_files w files_of r = files_at files_of (resolve_library_target w r)
