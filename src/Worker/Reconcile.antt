-- ===== src/Worker/Reconcile.antt =====
-- internal/job/reconcile.go: the scan of a library, which inserts a job for each file that has none.
-- What the service of the library and the file system answer is the record Scan.
use recodarr.Store.Jobs.Edits.{insert_job}
use recodarr.Store.Jobs.Queries.{has_job_for_item}
use recodarr.Store.Jobs.Table.{Jobs}
use recodarr.Handbrake.Temp.{is_temp_path}
use recodarr.Prelude.{
  ℕ, zero, suc, ◌+◌, ◌-◌, ◌*◌, ◌/◌, ◌%◌, ◌≤◌, ◌<◌, ◌≡◌, ◌≢◌, refl, sym, ap, ◌∙◌, Bool, true, false,
  not, ◌&&◌, ◌||◌, Text, codes, text_eq, List, [], ◌∷◌, ◌++◌, Option, none, some, length, take,
  drop, keep, any_of, find_first, count_of, All, ltb, leb, ◌==◌, if◌then◌else◌, arith, Bool-cases,
  Option-cases, inl, inr, ◌⊎◌,
}
use recodarr.Store.Rows.{
  JobRow, TagMappingRow, ArrInstanceRow, waiting_for_seed, waiting_for_hardlink,
}
use recodarr.Prelude.Paths.{is_empty, is_abs, clean, split_by, slash}
pub mod Laws

unfoldable pub sanitize_media_path : Text → Option Text
sanitize_media_path p =
    if is_empty p
    then none
    else if any_of (λ c. c == 0) p
    then none
    else if not (is_abs p)
    then none
    else if any_of (λ seg. text_eq seg (codes "..")) (split_by slash (clean p))
    then none
    else some (clean p)

-- `mapByTagID[tid]`: the first mapping of a tag counts.
unfoldable pub mapping_of_tag : List TagMappingRow → ℕ → Option TagMappingRow
mapping_of_tag ms tag = find_first (λ m. m.tag_id == tag) ms

unfoldable pub match_mapping : List TagMappingRow → List ℕ → Option TagMappingRow
unfolding mapping_of_tag
match_mapping ms [] = none
match_mapping ms (t ∷ ts) = elim (mapping_of_tag ms t) [
  | some m ↦ some m
  | none ↦ match_mapping ms ts
]

pub record MediaFile : Type 0 where
  pub file_id : ℕ
  pub path : Text
  pub relative_path : Text
  pub size : ℕ

pub record LibraryItem : Type 0 where
  pub item_id : ℕ
  pub item_title : Text
  pub tag_ids : List ℕ

pub record Scan : Type 0 where
  pub time : ℕ
  pub suffix_enabled : Bool
  pub sidecar_exists : Text → Bool
  pub import_of : Text → Text → Text  -- MatchImportDownloadID; empty if there is none
  pub tags_of : Text → Text  -- json.Marshal of a list of one label
  pub db_fails : ℕ → Bool  -- the dedup check or the insert for the file fails

-- The cleaned path of a file that is a candidate.
unfoldable pub candidate : Scan → MediaFile → Option Text
unfolding sanitize_media_path
candidate sc f = elim (sanitize_media_path f.path) [
  | none ↦ none
  | some p ↦
      if is_temp_path p
      then none
      else if sc.suffix_enabled && sc.sidecar_exists p
      then none
      else some p
]

abbrev pub new_row : Scan → ArrInstanceRow → LibraryItem → TagMappingRow → MediaFile → Text → JobRow
new_row sc inst it mp f p =
    let download = sc.import_of p f.relative_path in
    record {
      id = 0;
      arr_kind = inst.kind;
      arr_instance_id = inst.id;
      arr_item_id = f.file_id;
      arr_parent_id = it.item_id;
      title = it.item_title;
      file_path = p;
      file_size = f.size;
      download_id = download;
      profile_id = some mp.profile_id;
      status = if is_empty download then waiting_for_hardlink else waiting_for_seed;
      error = [];
      encode_log = [];
      refresh_error = [];
      attempts = 0;
      created_at = 0;
      updated_at = 0;
      started_at = none;
      finished_at = none;
      original_size = none;
      final_size = none;
      tags = sc.tags_of mp.tag_label;
      source = codes "poll";
    }

module _ (sc : Scan) (inst : ArrInstanceRow) (it : LibraryItem) (mp : TagMappingRow) where
  -- The body of the loop: whether a job was inserted.
  unfoldable pub reconcile_file : MediaFile → Jobs → Bool × Jobs
  unfolding candidate
  reconcile_file f db = elim (candidate sc f) [
    | none ↦ (false, db)
    | some p ↦
        if sc.db_fails f.file_id || has_job_for_item inst.kind inst.id f.file_id db
        then (false, db)
        else (true, (insert_job sc.time (new_row sc inst it mp f p) db).1)
  ]

  unfoldable pub reconcile_parent : List MediaFile → Jobs → ℕ × Jobs
  unfolding reconcile_file
  reconcile_parent [] db = (0, db)
  reconcile_parent (f ∷ fs) db =
      let (inserted, db') = reconcile_file f db in
      let (n, db'') = reconcile_parent fs db' in (if inserted then suc n else n, db'')

-- The files of an item are `none` if they cannot be listed.
unfoldable pub reconcile_item :
    Scan
    → ArrInstanceRow
    → List TagMappingRow
    → (ℕ → Option (List MediaFile))
    → LibraryItem
    → Jobs
    → Jobs
unfolding match_mapping reconcile_parent
reconcile_item sc inst ms files it db = elim (match_mapping ms it.tag_ids) [
  | none ↦ db
  | some mp ↦ elim (files it.item_id) [
    | none ↦ db
    | some fs ↦ (reconcile_parent sc inst it mp fs db).1
  ]
]

unfoldable pub reconcile_items :
    Scan
    → ArrInstanceRow
    → List TagMappingRow
    → (ℕ → Option (List MediaFile))
    → List LibraryItem
    → Jobs
    → Jobs
unfolding reconcile_item
reconcile_items sc inst ms files [] db = db
reconcile_items sc inst ms files (it ∷ its) db =
    reconcile_items sc inst ms files its (reconcile_item sc inst ms files it db)
