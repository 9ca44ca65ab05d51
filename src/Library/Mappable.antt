-- ===== src/Library/Mappable.antt =====
-- internal/api/library.go: what a scan says of the instances.
use recodarr.Prelude.{
  ℕ, Bool, true, false, not, ◌||◌, Text, text_eq, List, [], ◌∷◌, ◌++◌, Option, none, some, length,
  ◌==◌, if◌then◌else◌,
}
use recodarr.Prelude.Order.{sort_by, text_ltb}
use recodarr.Store.Rows.{ArrInstanceRow, ProfileRow, TagMappingRow}
use recodarr.Arr.{Tag}
use recodarr.Library.{Service}

pub record LibraryMappableTagDto : Type 0 where
  pub tag_id : ℕ
  pub tag_label : Text
  pub profile_id : ℕ
  pub profile_name : Text

-- Whether the service answered stands for the text of its error.
pub record LibraryInstanceDto : Type 0 where
  pub id : ℕ
  pub name : Text
  pub failed : Bool
  pub tag_count : ℕ
  pub mappable_tags : List LibraryMappableTagDto

-- `mapped[t]`: the last mapping of a tag counts.
abbrev last_mapping : Option TagMappingRow → List TagMappingRow → ℕ → Option TagMappingRow
last_mapping found [] t = found
last_mapping found (m ∷ ms) t = last_mapping (if m.tag_id == t then some m else found) ms t

-- `profileNames[i]`
abbrev last_name : Option Text → List ProfileRow → ℕ → Option Text
last_name found [] i = found
last_name found (p ∷ ps) i = last_name (if p.id == i then some p.name else found) ps i

abbrev named : Tag → TagMappingRow → Option Text → List LibraryMappableTagDto
named g m none = []
named g m (some name) =
    record { tag_id = g.id; tag_label = g.label; profile_id = m.profile_id; profile_name = name }
    ∷ []

abbrev mapped_tag : List ProfileRow → Tag → Option TagMappingRow → List LibraryMappableTagDto
mapped_tag profiles g none = []
mapped_tag profiles g (some m) = named g m (last_name none profiles m.profile_id)

unfoldable pub mappable_tags :
    List TagMappingRow → List ProfileRow → List Tag → List LibraryMappableTagDto
mappable_tags mappings profiles [] = []
mappable_tags mappings profiles (g ∷ gs) =
    mapped_tag profiles g (last_mapping none mappings g.id) ++ mappable_tags mappings profiles gs

abbrev by_label : LibraryMappableTagDto → LibraryMappableTagDto → Bool
by_label a b = text_ltb a.tag_label b.tag_label

abbrev tags_or_none : Option (List Tag) → List Tag
tags_or_none none = []
tags_or_none (some gs) = gs

unfoldable pub instance_entry :
    List TagMappingRow → List ProfileRow → Service → ArrInstanceRow → LibraryInstanceDto
unfolding mappable_tags sort_by
instance_entry mappings profiles s inst =
    let tags = tags_or_none s.tags in
    elim s.items [
      | none ↦ record {
        id = inst.id;
        name = inst.name;
        failed = true;
        tag_count = 0;
        mappable_tags = [];
      }
      | some items ↦ record {
        id = inst.id;
        name = inst.name;
        failed = false;
        tag_count = length tags;
        mappable_tags = sort_by by_label (mappable_tags mappings profiles tags);
      }
    ]

unfoldable pub scan_instances :
    Text
    → List TagMappingRow
    → List ProfileRow
    → (ℕ → Service)
    → List ArrInstanceRow
    → List LibraryInstanceDto
unfolding instance_entry
scan_instances kind mappings profiles services [] = []
scan_instances kind mappings profiles services (inst ∷ insts) =
    let rest = scan_instances kind mappings profiles services insts in
    if not inst.enabled || not (text_eq inst.kind kind)
    then rest
    else instance_entry mappings profiles (services inst.id) inst ∷ rest
