-- ===== src/Library/AddTag.antt =====
-- internal/api/library.go: the handler that gives an item a tag.
use recodarr.Prelude.{
  ℕ, zero, suc, ◌+◌, ◌-◌, ◌*◌, ◌/◌, ◌%◌, ◌≤◌, ◌<◌, ◌≡◌, ◌≢◌, refl, sym, ap, ◌∙◌, Bool, true, false,
  not, ◌&&◌, ◌||◌, Text, codes, text_eq, List, [], ◌∷◌, ◌++◌, Option, none, some, length, take,
  drop, keep, any_of, find_first, count_of, All, ltb, leb, ◌==◌, if◌then◌else◌, arith, Bool-cases,
  Option-cases, inl, inr, ◌⊎◌,
}
use recodarr.Prelude.Order.{text_ltb}
use recodarr.Prelude.Int.{ℤ, pos, negsuc}
use recodarr.Prelude.Paths.{is_empty}
use recodarr.Store.Rows.{ArrInstanceRow, TagMappingRow, ProfileRow}
use recodarr.Arr.{Tag}
use recodarr.Library.Cache.{LibraryCache, mark_tagged, parse_arr_kind}
pub mod Checks
pub mod Guarded
pub mod Marked

-- The parts of the address, each if it can be read, and the body, if it is JSON of the right form.
pub record TagRequest : Type 0 where
  pub kind : Text
  pub instance_id : Option ℕ
  pub item_id : Option ℕ
  pub tag_id : Option ℤ

-- What the database answers, and the service: its tags, and whether it takes a new one.
pub record TagWorld : Type 0 where
  pub instance_of : ℕ → Option ArrInstanceRow
  pub mappings_of : Text → Option (List TagMappingRow)
  pub profile_of : ℕ → Option ProfileRow
  pub tags : Option (List Tag)
  pub takes_tag : Bool

-- A call of AddTag at an instance: the item and the tag.
pub record TagCall : Type 0 where
  pub instance : ArrInstanceRow
  pub item : ℕ
  pub tag : ℕ

pub record TagAnswer : Type 0 where
  pub code : ℕ
  pub calls : List TagCall
  pub cache : LibraryCache

abbrev pub Target : Type 0
Target = ℕ ⊎ (ArrInstanceRow × ℕ)

abbrev pub of_kind : Text → ℕ → Option ArrInstanceRow → Target
of_kind kind item none = inl 404
of_kind kind item (some inst) = if text_eq inst.kind kind then inr (inst, item) else inl 400

abbrev pub of_item : TagWorld → Text → ℕ → Option ℕ → Target
of_item w kind i none = inl 400
of_item w kind i (some item) = of_kind kind item (w.instance_of i)

abbrev pub of_instance : TagWorld → Text → Option ℕ → Option ℕ → Target
of_instance w kind none item = inl 400
of_instance w kind (some i) item = of_item w kind i item

abbrev pub of_request : TagWorld → Option ℕ → Option ℕ → Option Text → Target
of_request w i item none = inl 400
of_request w i item (some kind) = of_instance w kind i item

unfoldable pub resolve_library_target : TagWorld → TagRequest → Target
unfolding parse_arr_kind
resolve_library_target w r = of_request w r.instance_id r.item_id (parse_arr_kind r.kind)

abbrev pub tag_number : Option ℤ → Option ℕ
tag_number none = none
tag_number (some (negsuc n)) = none
tag_number (some (pos zero)) = none
tag_number (some (pos (suc n))) = some (suc n)

abbrev pub label_in : List Tag → ℕ → Text
label_in [] t = []
label_in (g ∷ gs) t = if g.id == t then g.label else label_in gs t

unfoldable pub find_tag_mapping : List TagMappingRow → ℕ → Option TagMappingRow
find_tag_mapping mappings t = find_first (λ m. m.tag_id == t) mappings

-- What the handler checks of a tag before it calls the service, the last check first; a check that
-- fails gives the code of the error.
abbrev pub Checked : Type 0
Checked = ℕ ⊎ (ℕ × Text)

abbrev pub with_profile : ℕ → Text → Option ProfileRow → Checked
with_profile t label none = inl 409
with_profile t label (some p) = inr (t, label)

abbrev pub with_mapping : TagWorld → ℕ → Text → Option TagMappingRow → Checked
with_mapping w t label none = inl 400
with_mapping w t label (some m) = with_profile t label (w.profile_of m.profile_id)

abbrev pub with_mappings : TagWorld → ℕ → Text → Option (List TagMappingRow) → Checked
with_mappings w t label none = inl 500
with_mappings w t label (some ms) = with_mapping w t label (find_tag_mapping ms t)

abbrev pub with_label : TagWorld → Text → ℕ → Text → Checked
with_label w kind t [] = inl 400
with_label w kind t (c ∷ label) = with_mappings w t (c ∷ label) (w.mappings_of kind)

abbrev pub with_tags : TagWorld → Text → ℕ → Option (List Tag) → Checked
with_tags w kind t none = inl 502
with_tags w kind t (some []) = inl 409
with_tags w kind t (some (g ∷ gs)) = with_label w kind t (label_in (g ∷ gs) t)

abbrev pub with_number : TagWorld → Text → Option ℕ → Checked
with_number w kind none = inl 400
with_number w kind (some t) = with_tags w kind t w.tags

unfoldable pub check_tag : TagWorld → Text → Option ℤ → Checked
unfolding find_tag_mapping
check_tag w kind body = with_number w kind (tag_number body)

abbrev pub refused : ℕ → LibraryCache → TagAnswer
refused code c = record { code = code; calls = []; cache = c }

abbrev pub tag_answer : TagCall → Text → LibraryCache → Bool → TagAnswer
tag_answer call label c true = record {
  code = 200;
  calls = call ∷ [];
  cache = mark_tagged call.instance.kind call.instance.id call.item label c;
}
tag_answer call label c false = record { code = 502; calls = call ∷ []; cache = c }

abbrev pub call_service : TagWorld → ArrInstanceRow → ℕ → LibraryCache → Checked → TagAnswer
call_service w inst item c (inl code) = refused code c
call_service w inst item c (inr (t, label)) =
    tag_answer (record { instance = inst; item = item; tag = t }) label c w.takes_tag

abbrev pub at_target : TagWorld → Option ℤ → LibraryCache → Target → TagAnswer
at_target w body c (inl code) = refused code c
at_target w body c (inr (inst, item)) = call_service w inst item c (check_tag w inst.kind body)

unfoldable pub library_add_tag : TagWorld → TagRequest → LibraryCache → TagAnswer
unfolding resolve_library_target check_tag mark_tagged
library_add_tag w r c = at_target w r.tag_id c (resolve_library_target w r)
