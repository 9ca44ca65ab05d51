-- ===== src/Arr/History.antt =====
-- internal/arr/arr.go: the import history, by which a file is matched with its download.
use mathlib.Core.Option
use recodarr.Prelude.{
  map, ℕ, ◌-◌, Bool, not, ◌&&◌, ◌||◌, Text, codes, text_eq, List, [], ◌∷◌, Option, none, some,
  length, drop, find_first, ltb, ◌==◌, if◌then◌else◌,
}
use recodarr.Prelude.Order.{sort_by}
use recodarr.Prelude.Paths.{is_empty}
use recodarr.Arr.{Response, get_json, is_sonarr, is_radarr}

pub record HistoryRecord : Type 0 where
  pub download_id : Text
  pub event_type : Text
  pub date : ℕ
  pub imported_path : Text

pub record ImportEvent : Type 0 where
  pub download_id : Text
  pub imported_path : Text
  pub date : ℕ

abbrev pub is_import : HistoryRecord → Bool
is_import r = text_eq r.event_type (codes "downloadFolderImported") && not (is_empty r.download_id)

abbrev pub event_of : HistoryRecord → ImportEvent
event_of r = record { download_id = r.download_id; imported_path = r.imported_path; date = r.date }

unfoldable pub import_events : List HistoryRecord → List ImportEvent
import_events [] = []
import_events (r ∷ rs) = if is_import r then event_of r ∷ import_events rs else import_events rs

-- `out[i].Date.After(out[j].Date)`
abbrev pub newer : ImportEvent → ImportEvent → Bool
newer a b = ltb b.date a.date

unfoldable pub import_history : Text → Response (List HistoryRecord) → Option (List ImportEvent)
unfolding get_json import_events sort_by
import_history kind answer =
    if is_sonarr kind || is_radarr kind
    then Option.map (λ rs. sort_by newer (import_events rs)) (get_json answer)
    else none

-- `ReplaceAll(s, "\\", "/")`
abbrev pub slashed : Text → Text
slashed s = map (λ c. if c == 92 then 47 else c) s

-- `strings.HasSuffix`
unfoldable pub has_suffix : Text → Text → Bool
has_suffix s suffix = text_eq (drop (length s - length suffix) s) suffix

unfoldable pub matches : Text → Text → ImportEvent → Bool
unfolding has_suffix
matches abs relative e =
    text_eq e.imported_path abs
    || not (is_empty (slashed relative))
      && has_suffix (slashed e.imported_path) (47 ∷ slashed relative)

abbrev pub first_id : List ImportEvent → Text
first_id [] = []
first_id (e ∷ es) = e.download_id

abbrev pub id_or : Option ImportEvent → Text → Text
id_or none t = t
id_or (some e) t = e.download_id

unfoldable pub match_import_download_id : List ImportEvent → Text → Text → Text → Text
unfolding matches
match_import_download_id events kind abs relative =
    id_or (find_first (matches abs relative) events)
      (if is_radarr kind then first_id events else [])
