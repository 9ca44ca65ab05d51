-- ===== src/Tests/Shelf.antt =====
-- The theorems on the library and the histories at concrete answers of a service.
use recodarr.Prelude.{
  false, ℕ, ◌≡◌, refl, true, Text, codes, text_eq, List, [], ◌∷◌, none, some, ◌==◌, if◌then◌else◌,
}
use recodarr.Arr.{LibraryItem}
use recodarr.Arr.History.{
  HistoryRecord, ImportEvent, event_of, matches, import_history, match_import_download_id,
}
use recodarr.Arr.Laws.{IsNewest, match_import_download_id-IsNewest}
use recodarr.Library.{build_library_item, is_mapped}
use recodarr.Library.Cache.{tag_item, LibraryCache}
use recodarr.Library.Cache.Tagged.{tag_item-build_library_item}
use recodarr.Library.AddTag.{TagRequest, TagWorld, library_add_tag}
use recodarr.Library.AddTag.Guarded.{IsGuarded, library_add_tag-IsGuarded}
use recodarr.Prelude.Int.{pos}
use recodarr.Tests.{sample_profile}
use recodarr.Tests.Tables.{sample_instance, sample_mapping}

abbrev episode : Text
episode = codes "/tv/show/s01e01.mkv"

abbrev history : List HistoryRecord
history =
    record {
      download_id = codes "OLD";
      event_type = codes "downloadFolderImported";
      date = 3;
      imported_path = episode;
    }
    ∷ record {
      download_id = codes "NEW";
      event_type = codes "downloadFolderImported";
      date = 8;
      imported_path = episode;
    }
    ∷ record {
      download_id = codes "GRAB";
      event_type = codes "grabbed";
      date = 9;
      imported_path = episode;
    }
    ∷ []

abbrev imported : List ImportEvent
imported =
    record { download_id = codes "NEW"; imported_path = episode; date = 8 }
    ∷ record { download_id = codes "OLD"; imported_path = episode; date = 3 }
    ∷ []

match_import_download_id-IsNewest_example :
    IsNewest history
      (λ r. matches episode [] (event_of r))
      (match_import_download_id imported (codes "sonarr") episode [])
unfolding import_history text_eq
match_import_download_id-IsNewest_example =
    match_import_download_id-IsNewest history imported episode [] refl

abbrev show : LibraryItem
show = record {
  id = 5;
  title = codes "Show";
  path = codes "/tv/show";
  tag_ids = 3 ∷ [];
  file_count = 10;
  total_size = 5000;
  runtime_minutes = 24;
  year = 2020;
}

abbrev tag_names : ℕ → Text
tag_names t = if t == 4 then codes "encode" else codes "anime"

tag_item-build_library_item_example :
    tag_item 1 5
      (codes "encode")
      (build_library_item sample_instance show tag_names (sample_mapping ∷ []))
    ≡ build_library_item sample_instance
        (record show { tag_ids = 3 ∷ 4 ∷ [] })
        tag_names
        (sample_mapping ∷ [])
unfolding is_mapped text_eq
tag_item-build_library_item_example =
    tag_item-build_library_item sample_instance show tag_names (sample_mapping ∷ []) 4 refl
      (λ h. refl)

abbrev tag_world : TagWorld
tag_world = record {
  instance_of = λ i. if i == 1 then some sample_instance else none;
  mappings_of = λ k. some (sample_mapping ∷ []);
  profile_of = λ i. some sample_profile;
  tags = some (record { id = 4; label = codes "encode" } ∷ []);
  takes_tag = true;
}

abbrev tag_request : TagRequest
tag_request = record {
  kind = codes "sonarr";
  instance_id = some 1;
  item_id = some 5;
  tag_id = some (pos 4);
}

-- A scan that has the item, in the cache under every key.
abbrev scans : LibraryCache
scans k = some (record {
  kind = codes "sonarr";
  deep = false;
  scanned_at = 7;
  instances = [];
  items = build_library_item sample_instance show tag_names (sample_mapping ∷ []) ∷ [];
})

library_add_tag-IsGuarded_example :
    IsGuarded tag_world tag_request scans (library_add_tag tag_world tag_request scans)
library_add_tag-IsGuarded_example = library_add_tag-IsGuarded tag_world tag_request scans
