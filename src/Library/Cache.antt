-- ===== src/Library/Cache.antt =====
-- internal/api/library.go: the cache of the scans, and libraryScan with it.
use recodarr.Prelude.{
  ℕ, zero, suc, ◌+◌, ◌-◌, ◌*◌, ◌/◌, ◌%◌, ◌≤◌, ◌<◌, ◌≡◌, ◌≢◌, refl, sym, ap, ◌∙◌, Bool, true, false,
  not, ◌&&◌, ◌||◌, Text, codes, text_eq, List, [], ◌∷◌, ◌++◌, Option, none, some, length, take,
  drop, keep, any_of, find_first, count_of, All, ltb, leb, ◌==◌, if◌then◌else◌, arith, Bool-cases,
  Option-cases, inl, inr, ◌⊎◌,
}
use recodarr.Prelude.Order.{sort_by}
use recodarr.Library.{map, LibraryItemDto, sort_strings, scan_items, Service}
use recodarr.Library.Mappable.{LibraryInstanceDto, scan_instances}
use recodarr.Store.Rows.{ArrInstanceRow, ProfileRow, TagMappingRow}
pub mod Tagged

pub record LibraryScanDto : Type 0 where
  pub kind : Text
  pub deep : Bool
  pub scanned_at : ℕ
  pub instances : List LibraryInstanceDto
  pub items : List LibraryItemDto

abbrev pub library_cache_ttl : ℕ
library_cache_ttl = 600

abbrev pub LibraryCache : Type 0
LibraryCache = Text → Option LibraryScanDto

-- `time.Since(e.ScannedAt) > libraryCacheTTL`
abbrev fresh : ℕ → Option LibraryScanDto → Option LibraryScanDto
fresh now none = none
fresh now (some e) = if ltb library_cache_ttl (now - e.scanned_at) then none else some e

unfoldable pub cache_get : ℕ → Text → LibraryCache → Option LibraryScanDto
cache_get now key c = fresh now (c key)

unfoldable pub cache_put : Text → LibraryScanDto → LibraryCache → LibraryCache
cache_put key v c k = if text_eq k key then some v else c k

unfoldable pub add_label : Text → List Text → List Text
unfolding sort_by
add_label label labels =
    if any_of (λ t. text_eq t label) labels then labels else sort_strings (labels ++ label ∷ [])

unfoldable pub tag_item : ℕ → ℕ → Text → LibraryItemDto → LibraryItemDto
unfolding add_label
tag_item instance_id item_id label it =
    if it.instance_id == instance_id && it.item_id == item_id
    then record it {
      mapped = true;
      tag_labels = add_label label it.tag_labels;
      mapped_tags = add_label label it.mapped_tags;
    }
    else it

abbrev pub tag_scan : ℕ → ℕ → Text → Option LibraryScanDto → Option LibraryScanDto
tag_scan instance_id item_id label none = none
tag_scan instance_id item_id label (some e) =
    some (record e { items = map (tag_item instance_id item_id label) e.items })

abbrev pub deep_key : Text → Text
deep_key kind = kind ++ codes ":deep"

unfoldable pub mark_tagged : Text → ℕ → ℕ → Text → LibraryCache → LibraryCache
unfolding tag_item
mark_tagged kind instance_id item_id label c key =
    if text_eq key kind || text_eq key (deep_key kind)
    then tag_scan instance_id item_id label (c key)
    else c key

unfoldable pub parse_arr_kind : Text → Option Text
parse_arr_kind s = if text_eq s (codes "sonarr") || text_eq s (codes "radarr") then some s else none

-- What the database answers: the instances that are not deleted, the mappings of a kind and the
-- profiles that are not deleted.
pub record ScanRequest : Type 0 where
  pub kind : Text
  pub deep : Bool
  pub refresh : Bool
  pub instances : Option (List ArrInstanceRow)
  pub mappings : Option (List TagMappingRow)
  pub profiles : Option (List ProfileRow)
  pub services : ℕ → Service

abbrev by_bitrate : LibraryItemDto → LibraryItemDto → Bool
by_bitrate a b = ltb b.bitrate_bps a.bitrate_bps

abbrev scan_key : Text → Bool → Text
scan_key kind deep = if deep then deep_key kind else kind

abbrev unless : Bool → Option LibraryScanDto → Option LibraryScanDto
unless true o = none
unless false o = o

abbrev fresh_scan :
    ℕ → ScanRequest → List ArrInstanceRow → List TagMappingRow → List ProfileRow → LibraryScanDto
fresh_scan now r instances mappings profiles = record {
  kind = r.kind;
  deep = r.deep;
  scanned_at = now;
  instances = scan_instances r.kind mappings profiles r.services instances;
  items = sort_by by_bitrate (scan_items r.kind r.deep mappings r.services instances);
}

-- libraryScan: the code, the scan of the answer and the cache.
unfoldable pub library_scan :
    ℕ → ScanRequest → LibraryCache → ℕ × Option LibraryScanDto × LibraryCache
unfolding parse_arr_kind cache_get cache_put scan_items scan_instances sort_by
library_scan now r c = elim (parse_arr_kind r.kind) [
  | none ↦ (400, none, c)
  | some kind ↦ elim (unless r.refresh (cache_get now (scan_key kind r.deep) c)) [
    | some hit ↦ (200, some hit, c)
    | none ↦ elim r.instances [
      | none ↦ (500, none, c)
      | some instances ↦ elim r.mappings [
        | none ↦ (500, none, c)
        | some mappings ↦ elim r.profiles [
          | none ↦ (500, none, c)
          | some profiles ↦
              let out = fresh_scan now r instances mappings profiles in
              (200, some out, cache_put (scan_key kind r.deep) out c)
        ]
      ]
    ]
  ]
]
