-- ===== src/Library.antt =====
-- internal/api/library.go: the items of the libraries with their tags and bit rates. The services
-- answer through a parameter; the rows of an item are those of the last answers.
use recodarr.Prelude.{
  map, ℕ, zero, suc, ◌+◌, ◌-◌, ◌*◌, ◌/◌, ◌%◌, ◌≤◌, ◌<◌, ◌≡◌, ◌≢◌, refl, sym, ap, ◌∙◌, Bool, true,
  false, not, ◌&&◌, ◌||◌, Text, codes, text_eq, List, [], ◌∷◌, ◌++◌, Option, none, some, length,
  take, drop, keep, any_of, find_first, count_of, All, ltb, leb, ◌==◌, if◌then◌else◌, arith,
  Bool-cases, Option-cases, inl, inr, ◌⊎◌,
}
use recodarr.Prelude.Order.{text_ltb, sort_by}
use recodarr.Prelude.Order.Best.{best_from}
use recodarr.Prelude.Int.{ℤ, pos, negsuc, sub_ℕ, pos_part, neg_part}
use recodarr.Prelude.Paths.{is_empty}
use recodarr.Prelude.Numbers.{itoa}
use recodarr.Arr.{LibraryItem, LibraryFile, Tag}
use recodarr.Store.Rows.{ArrInstanceRow, TagMappingRow}
pub mod Mappable
pub mod Cache
pub mod FileList
pub mod AddTag
pub mod Laws

pub record LibraryItemDto : Type 0 where
  pub instance_id : ℕ
  pub instance_name : Text
  pub item_id : ℕ
  pub title : Text
  pub year : ℕ
  pub path : Text
  pub file_count : ℕ
  pub total_size : ℕ
  pub runtime_seconds : ℤ
  pub bitrate_bps : ℕ
  pub bitrate_exact : Bool
  pub video_codec : Text
  pub resolution : Text
  pub tag_labels : List Text
  pub mapped : Bool
  pub mapped_tags : List Text

-- `sort.Strings`
abbrev pub sort_strings : List Text → List Text
sort_strings = sort_by text_ltb

unfoldable pub bitrate : ℕ → ℤ → ℕ
bitrate size (negsuc n) = 0
bitrate size (pos n) = if size == 0 || n == 0 then 0 else size * 8 / n

-- `strings.Compare(k, best) < 0` decides between keys that are as common.
abbrev pub more_common : Text × ℕ → Text × ℕ → Bool
more_common (k, n) (best, m) = ltb m n || n == m && text_ltb k best

-- The keys come in the order in which the map is iterated.
unfoldable pub most_common : List (Text × ℕ) → Text
unfolding best_from
most_common counts = (best_from more_common ([], 0) counts).0

-- `counts[k]++`
unfoldable pub count_key : Text → List (Text × ℕ) → List (Text × ℕ)
count_key k [] = (k, 1) ∷ []
count_key k ((j, n) ∷ m) = if text_eq j k then (j, n + 1) ∷ m else (j, n) ∷ count_key k m

-- How often each value that is not empty occurs.
unfoldable pub tally : List Text → List (Text × ℕ)
unfolding count_key
tally [] = []
tally (k ∷ ks) = if is_empty k then tally ks else count_key k (tally ks)

-- `labels[tid]`, or the number of the tag
abbrev pub label_of : (ℕ → Text) → ℕ → Text
label_of labels t = if is_empty (labels t) then itoa t else labels t

unfoldable pub is_mapped : List TagMappingRow → ℕ → Bool
is_mapped mappings t = any_of (λ m. m.tag_id == t) mappings

unfoldable pub build_library_item :
    ArrInstanceRow → LibraryItem → (ℕ → Text) → List TagMappingRow → LibraryItemDto
unfolding bitrate is_mapped sort_by
build_library_item inst it labels mappings =
    let seconds = it.runtime_minutes * 60 * it.file_count in
    record {
      instance_id = inst.id;
      instance_name = inst.name;
      item_id = it.id;
      title = it.title;
      year = it.year;
      path = it.path;
      file_count = it.file_count;
      total_size = it.total_size;
      runtime_seconds = pos seconds;
      bitrate_bps = bitrate it.total_size (pos seconds);
      bitrate_exact = false;
      video_codec = [];
      resolution = [];
      tag_labels = sort_strings (map (label_of labels) it.tag_ids);
      mapped = any_of (is_mapped mappings) it.tag_ids;
      mapped_tags = sort_strings (map (label_of labels) (keep (is_mapped mappings) it.tag_ids));
    }

unfoldable pub total_bytes : List LibraryFile → ℕ
total_bytes [] = 0
total_bytes (f ∷ fs) = f.size + total_bytes fs

unfoldable pub total_seconds : List LibraryFile → ℤ
total_seconds [] = pos 0
total_seconds (f ∷ fs) =
    let t = total_seconds fs in
    sub_ℕ (pos_part f.runtime_seconds + pos_part t) (neg_part f.runtime_seconds + neg_part t)

abbrev is_zero : ℤ → Bool
is_zero (pos n) = n == 0
is_zero (negsuc n) = false

-- One of the tasks of deepenLibraryItems; each writes to its own row.
unfoldable pub deepen_item : Option (List LibraryFile) → LibraryItemDto → LibraryItemDto
unfolding bitrate most_common tally total_bytes total_seconds
deepen_item none row = row
deepen_item (some []) row = row
deepen_item (some (f ∷ fs)) row =
    let files = f ∷ fs in
    let seconds = total_seconds files in
    let size = total_bytes files in
    let codec = most_common (tally (map (λ g. g.video_codec) files)) in
    let resolution = most_common (tally (map (λ g. g.resolution) files)) in
    let total = if size == 0 then row.total_size else size in
    if is_zero seconds
    then record row { video_codec = codec; resolution = resolution }
    else record row {
      video_codec = codec;
      resolution = resolution;
      total_size = total;
      file_count = length files;
      runtime_seconds = seconds;
      bitrate_bps = bitrate total seconds;
      bitrate_exact = true;
    }

-- What the service of an instance answers: its items, its tags, and the files of an item.
pub record Service : Type 0 where
  pub items : Option (List LibraryItem)
  pub tags : Option (List Tag)
  pub files : ℕ → Option (List LibraryFile)

-- The label that `labels[tid]` has at the end: the last one of a tag counts.
abbrev last_label : Text → List Tag → ℕ → Text
last_label label [] t = label
last_label label (g ∷ gs) t = last_label (if g.id == t then g.label else label) gs t

abbrev labels_of : Option (List Tag) → ℕ → Text
labels_of none t = []
labels_of (some gs) t = last_label [] gs t

abbrev rows_of :
    Bool → Service → List TagMappingRow → ArrInstanceRow → List LibraryItem → List LibraryItemDto
rows_of deep s mappings inst [] = []
rows_of deep s mappings inst (it ∷ its) =
    let row = build_library_item inst it (labels_of s.tags) mappings in
    (if deep then deepen_item (s.files it.id) row else row) ∷ rows_of deep s mappings inst its

-- The items that libraryScan collects before it sorts them.
unfoldable pub scan_items :
    Text → Bool → List TagMappingRow → (ℕ → Service) → List ArrInstanceRow → List LibraryItemDto
unfolding build_library_item deepen_item
scan_items kind deep mappings services [] = []
scan_items kind deep mappings services (inst ∷ insts) =
    let rest = scan_items kind deep mappings services insts in
    if not inst.enabled || not (text_eq inst.kind kind)
    then rest
    else elim (services inst.id).items [
      | none ↦ rest
      | some its ↦ rows_of deep (services inst.id) mappings inst its ++ rest
    ]
