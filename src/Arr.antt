-- ===== src/Arr.antt =====
-- internal/arr/arr.go: the client of Sonarr and Radarr, from the answers of the service on. An answer
-- is a status code and the value that its JSON decodes to; `none` stands for a request that fails, or
-- for JSON of another form.
use mathlib.Core.Option
use recodarr.Prelude.{
  ℕ, zero, suc, ◌+◌, ◌-◌, ◌*◌, ◌/◌, ◌%◌, ◌≤◌, ◌<◌, ◌≡◌, ◌≢◌, refl, sym, ap, ◌∙◌, Bool, true, false,
  not, ◌&&◌, ◌||◌, Text, codes, text_eq, List, [], ◌∷◌, ◌++◌, Option, none, some, length, take,
  drop, keep, any_of, find_first, count_of, All, ltb, leb, ◌==◌, if◌then◌else◌, arith, Bool-cases,
  Option-cases, inl, inr, ◌⊎◌,
}
use recodarr.Prelude.Order.{sort_by}
use recodarr.Prelude.Numbers.{atoi}
use recodarr.Prelude.Paths.{split_by, is_empty}
use recodarr.Prelude.Int.{ℤ, pos, sub_ℕ, pos_part, neg_part}
pub mod History
pub mod Laws

pub record Tag : Type 0 where
  pub id : ℕ
  pub label : Text

pub record LibraryItem : Type 0 where
  pub id : ℕ
  pub title : Text
  pub path : Text
  pub tag_ids : List ℕ
  pub file_count : ℕ
  pub total_size : ℕ
  pub runtime_minutes : ℕ
  pub year : ℕ

pub record LibraryFile : Type 0 where
  pub id : ℕ
  pub parent_id : ℕ
  pub path : Text
  pub relative_path : Text
  pub size : ℕ
  pub runtime_seconds : ℤ
  pub video_bitrate : ℕ
  pub audio_bitrate : ℕ
  pub video_codec : Text
  pub audio_codec : Text
  pub resolution : Text
  pub quality : Text

pub record SonarrSeries : Type 0 where
  pub id : ℕ
  pub title : Text
  pub path : Text
  pub tags : List ℕ
  pub runtime : ℕ
  pub year : ℕ
  pub episode_file_count : ℕ
  pub size_on_disk : ℕ

pub record MediaInfo : Type 0 where
  pub audio_bitrate : ℕ
  pub audio_codec : Text
  pub video_bitrate : ℕ
  pub video_codec : Text
  pub resolution : Text
  pub run_time : Text

pub record EpisodeFile : Type 0 where
  pub id : ℕ
  pub series_id : ℕ
  pub path : Text
  pub relative_path : Text
  pub size : ℕ
  pub media_info : Option MediaInfo
  pub quality : Text

pub record MovieFile : Type 0 where
  pub id : ℕ
  pub path : Text
  pub relative_path : Text
  pub size : ℕ
  pub media_info : Option MediaInfo
  pub quality : Text

pub record RadarrMovie : Type 0 where
  pub id : ℕ
  pub title : Text
  pub path : Text
  pub tags : List ℕ
  pub has_file : Bool
  pub runtime : ℕ
  pub year : ℕ
  pub size_on_disk : ℕ
  pub movie_file : Option MovieFile

abbrev pub is_sonarr : Text → Bool
is_sonarr kind = text_eq kind (codes "sonarr")

abbrev pub is_radarr : Text → Bool
is_radarr kind = text_eq kind (codes "radarr")

abbrev pub Response : Type 0 → Type 0
Response A = Option (ℕ × Option A)

-- getJSON: the decoded body of an answer with status 200.
unfoldable pub get_json : {A : Type 0} → Response A → Option A
get_json none = none
get_json (some (status, body)) = if status == 200 then body else none

-- `total*60 + n`
abbrev sixty_more : ℤ → ℤ → ℤ
sixty_more t n = sub_ℕ (60 * pos_part t + pos_part n) (60 * neg_part t + neg_part n)

-- A part of a running time up to its first dot.
abbrev before_dot : Text → Text
before_dot [] = []
before_dot (c ∷ s) = if c == b'.' then [] else c ∷ before_dot s

unfoldable pub add_parts : ℤ → List Text → ℤ
add_parts total [] = total
add_parts total (p ∷ ps) =
    let (n, is_number) = atoi (before_dot p) in
    let rest = add_parts (sixty_more total n) ps in if is_number then rest else pos 0

-- The running times met are far below the range of an int.
unfoldable pub parse_run_time : Text → ℤ
unfolding add_parts
parse_run_time s = if is_empty s then pos 0 else add_parts (pos 0) (split_by b':' s)

unfoldable pub apply_media_info : Option MediaInfo → Text → LibraryFile → LibraryFile
unfolding parse_run_time
apply_media_info none quality f = record f { quality = quality }
apply_media_info (some mi) quality f = record f {
  quality = quality;
  runtime_seconds = parse_run_time mi.run_time;
  video_bitrate = mi.video_bitrate;
  audio_bitrate = mi.audio_bitrate;
  video_codec = mi.video_codec;
  audio_codec = mi.audio_codec;
  resolution = mi.resolution;
}

series_item : SonarrSeries → LibraryItem
series_item s = record {
  id = s.id;
  title = s.title;
  path = s.path;
  tag_ids = s.tags;
  file_count = s.episode_file_count;
  total_size = s.size_on_disk;
  runtime_minutes = s.runtime;
  year = s.year;
}

unfoldable pub series_items : List SonarrSeries → List LibraryItem
unfolding series_item
series_items [] = []
series_items (s ∷ ss) =
    if s.episode_file_count == 0 then series_items ss else series_item s ∷ series_items ss

movie_item : RadarrMovie → MovieFile → LibraryItem
movie_item m f = record {
  id = m.id;
  title = m.title;
  path = m.path;
  tag_ids = m.tags;
  file_count = 1;
  total_size = if m.size_on_disk == 0 then f.size else m.size_on_disk;
  runtime_minutes = m.runtime;
  year = m.year;
}

-- `!m.HasFile || m.MovieFile == nil`
abbrev file_of : RadarrMovie → Option MovieFile
file_of m = if m.has_file then m.movie_file else none

unfoldable pub movie_items : List RadarrMovie → List LibraryItem
unfolding movie_item
movie_items [] = []
movie_items (m ∷ ms) = elim (file_of m) [
  | none ↦ movie_items ms
  | some f ↦ movie_item m f ∷ movie_items ms
]

-- Library: the answers to the two requests of which the kind selects one.
unfoldable pub library :
    Text → Response (List SonarrSeries) → Response (List RadarrMovie) → Option (List LibraryItem)
unfolding get_json series_items movie_items
library kind series movies =
    if is_sonarr kind
    then Option.map series_items (get_json series)
    else if is_radarr kind
    then Option.map movie_items (get_json movies)
    else none

abbrev bare_file : ℕ → ℕ → Text → Text → ℕ → LibraryFile
bare_file id parent path relative size = record {
  id = id;
  parent_id = parent;
  path = path;
  relative_path = relative;
  size = size;
  runtime_seconds = pos 0;
  video_bitrate = 0;
  audio_bitrate = 0;
  video_codec = [];
  audio_codec = [];
  resolution = [];
  quality = [];
}

unfoldable pub episode_files : List EpisodeFile → List LibraryFile
unfolding apply_media_info
episode_files [] = []
episode_files (e ∷ es) =
    if is_empty e.path
    then episode_files es
    else apply_media_info e.media_info e.quality
        (bare_file e.id e.series_id e.path e.relative_path e.size)
      ∷ episode_files es

unfoldable pub movie_files : RadarrMovie → List LibraryFile
unfolding apply_media_info
movie_files m = elim (file_of m) [
  | none ↦ []
  | some f ↦
      if is_empty f.path
      then []
      else apply_media_info f.media_info f.quality
          (bare_file f.id m.id f.path f.relative_path f.size)
        ∷ []
]

unfoldable pub files :
    Text → Response (List EpisodeFile) → Response RadarrMovie → Option (List LibraryFile)
unfolding get_json episode_files movie_files
files kind episodes movie =
    if is_sonarr kind
    then Option.map episode_files (get_json episodes)
    else if is_radarr kind
    then Option.map movie_files (get_json movie)
    else none
