-- ===== src/Api/Tags.antt =====
-- internal/api/admin.go: the handlers of the tags of the services, and the tests of the agent. The
-- services answer through a parameter.
use recodarr.Prelude.{
  trim_space, map, ℕ, ◌+◌, Bool, false, not, ◌&&◌, Text, List, [], ◌∷◌, ◌++◌, Option, none, some,
  any_of, ltb, ◌==◌, if◌then◌else◌,
}
use recodarr.Api.{Answer}
use recodarr.Prelude.Order.{text_ltb, sort_by}
use recodarr.Prelude.Paths.{is_empty}
use recodarr.Store.Rows.{ArrInstanceRow}
use recodarr.Store.Config.{
  Config, is_arr_kind, list_arr_instances, get_arr_instance, list_tag_mappings_by_kind,
}
use recodarr.Arr.{Tag, LibraryItem}
use recodarr.Store.Settings.{AppSettings}

pub record TagService : Type 0 where
  pub tags : Option (List Tag)
  pub items : Option (List LibraryItem)

abbrev pub Services : Type 0
Services = ArrInstanceRow → TagService

abbrev tags_or_error : Option (List Tag) → Answer (List Tag)
tags_or_error none = (502, none)
tags_or_error (some ts) = (200, some ts)

abbrev tags_at : Services → Option ArrInstanceRow → Answer (List Tag)
tags_at s none = (404, none)
tags_at s (some r) = tags_or_error (s r).tags

unfoldable pub list_arr_tags : Services → Option ℕ → Config → Answer (List Tag)
unfolding get_arr_instance
list_arr_tags s none c = (400, none)
list_arr_tags s (some i) c = tags_at s (get_arr_instance i c)

pub record InstanceTag : Type 0 where
  pub instance_id : ℕ
  pub instance_name : Text
  pub kind : Text
  pub tag_id : ℕ
  pub tag_label : Text

abbrev instance_tags : ArrInstanceRow → Option (List Tag) → List InstanceTag
instance_tags r none = []
instance_tags r (some ts) =
    map
      (λ t. record {
        instance_id = r.id;
        instance_name = r.name;
        kind = r.kind;
        tag_id = t.id;
        tag_label = t.label;
      })
      ts

unfoldable pub all_tags_from : Services → List ArrInstanceRow → List InstanceTag
all_tags_from s [] = []
all_tags_from s (r ∷ rs) =
    (if is_arr_kind r.kind then instance_tags r (s r).tags else []) ++ all_tags_from s rs

unfoldable pub list_all_arr_tags : Services → Config → Answer (List InstanceTag)
unfolding list_arr_instances all_tags_from
list_all_arr_tags s c = (200, some (all_tags_from s (list_arr_instances false c)))

-- The counts of the tags that have no mapping, in the order in which they are met.
abbrev pub TagCounts : Type 0
TagCounts = List (ℕ × ℕ)

unfoldable pub add_count : ℕ → TagCounts → TagCounts
add_count t [] = (t, 1) ∷ []
add_count t ((u, n) ∷ m) = if u == t then (u, n + 1) ∷ m else (u, n) ∷ add_count t m

unfoldable pub count_tags : (ℕ → Bool) → List ℕ → TagCounts → TagCounts
unfolding add_count
count_tags mapped [] m = m
count_tags mapped (t ∷ ts) m = count_tags mapped ts (if mapped t then m else add_count t m)

unfoldable pub count_items : (ℕ → Bool) → List LibraryItem → TagCounts → TagCounts
unfolding count_tags
count_items mapped [] m = m
count_items mapped (it ∷ its) m = count_items mapped its (count_tags mapped it.tag_ids m)

pub record UnmappedTag : Type 0 where
  pub tag : InstanceTag
  pub item_count : ℕ

abbrev last_label : Text → List Tag → ℕ → Text
last_label label [] t = label
last_label label (g ∷ gs) t = last_label (if g.id == t then g.label else label) gs t

abbrev labelled : ArrInstanceRow → List Tag → TagCounts → List UnmappedTag
labelled r ts m =
    map
      (λ e. record {
        tag = record {
          instance_id = r.id;
          instance_name = r.name;
          kind = r.kind;
          tag_id = e.0;
          tag_label = last_label [] ts e.0;
        };
        item_count = e.1;
      })
      m

abbrev with_labels : ArrInstanceRow → TagCounts → Option (List Tag) → List UnmappedTag
with_labels r [] ts = []
with_labels r (e ∷ m) none = []
with_labels r (e ∷ m) (some ts) = labelled r ts (e ∷ m)

abbrev unmapped_of :
    Config → ArrInstanceRow → TagService → Option (List LibraryItem) → List UnmappedTag
unmapped_of c r s none = []
unmapped_of c r s (some its) =
    with_labels r
      (count_items (λ t. any_of (λ m. m.tag_id == t) (list_tag_mappings_by_kind r.kind c)) its [])
      s.tags

unfoldable pub unmapped_from : Services → Config → List ArrInstanceRow → List UnmappedTag
unfolding count_items list_tag_mappings_by_kind
unmapped_from s c [] = []
unmapped_from s c (r ∷ rs) =
    (if r.enabled && is_arr_kind r.kind then unmapped_of c r (s r) (s r).items else [])
    ++ unmapped_from s c rs

abbrev unmapped_before : UnmappedTag → UnmappedTag → Bool
unmapped_before a b =
    if a.tag.instance_id == b.tag.instance_id
    then text_ltb a.tag.tag_label b.tag.tag_label
    else ltb a.tag.instance_id b.tag.instance_id

unfoldable pub list_unmapped_tags : Services → Config → Answer (List UnmappedTag)
unfolding list_arr_instances unmapped_from sort_by
list_unmapped_tags s c =
    (200, some (sort_by unmapped_before (unmapped_from s c (list_arr_instances false c))))

-- testAgent: the address and the token of the body, or those of the settings, `none` if they cannot be
-- loaded. `ping` and `auth` are the answers of the agent at an address with a token.
abbrev or_setting : Text → Option Text → Option Text
or_setting given loaded = if is_empty given then loaded else some given

abbrev agent_url : Option AppSettings → Option Text
agent_url none = none
agent_url (some cfg) = some cfg.agent_url

abbrev agent_token : Option AppSettings → Option Text
agent_token none = none
agent_token (some cfg) = some cfg.agent_token

unfoldable pub test_agent :
    (Text → Text → Bool) → (Text → Text → Bool) → Option AppSettings → Text → Text → Bool
test_agent ping auth cfg url token = elim (or_setting (trim_space url) (agent_url cfg)) [
  | none ↦ false
  | some u ↦ elim (or_setting token (agent_token cfg)) [
    | none ↦ false
    | some t ↦ not (is_empty u) && not (is_empty t) && ping u t && auth u t
  ]
]
