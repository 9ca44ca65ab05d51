-- ===== src/Api/Mappings.antt =====
-- internal/api/admin.go: the handlers of the tag mappings. A row is its own answer.
use recodarr.Prelude.{ℕ, not, List, Option, none, some, if◌then◌else◌}
use recodarr.Api.{Answer}
use recodarr.Store.Rows.{TagMappingRow}
use recodarr.Store.Config.{
  Config, is_mapping_kind, list_tag_mappings, create_tag_mapping, delete_tag_mapping,
}

unfoldable pub list_mappings : Config → Answer (List TagMappingRow)
unfolding list_tag_mappings
list_mappings c = (200, some (list_tag_mappings c))

unfoldable pub create_mapping : Option TagMappingRow → Config → Answer TagMappingRow × Config
unfolding create_tag_mapping
create_mapping none c = ((400, none), c)
create_mapping (some d) c =
    let (created, c') = create_tag_mapping d c in
    if not (is_mapping_kind d.arr_kind) then ((400, none), c) else elim created [
      | none ↦ ((500, none), c')
      | some i ↦ ((201, some (record d { id = i })), c')
    ]

unfoldable pub delete_mapping : Option ℕ → Config → ℕ × Config
unfolding delete_tag_mapping
delete_mapping none c = (400, c)
delete_mapping (some i) c = (204, delete_tag_mapping i c)
