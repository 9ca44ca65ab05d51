-- ===== src/Library/AddTag/Checks.antt =====
-- internal/api/library.go: what the handler of the tags has checked of a tag before it calls the service.
use recodarr.Prelude.{
  Any, sym, ◌∙◌, ==_iff, ◌==◌, ℕ, zero, suc, ◌≡◌, ◌≢◌, refl, ap, false, Text, List, [], ◌∷◌, Option,
  none, some, arith, Bool-cases, inl, inr,
}
use recodarr.Arr.{Tag}
use recodarr.Prelude.Paths.{is_empty}
use recodarr.Prelude.Int.{pos}
use recodarr.Store.Rows.{TagMappingRow, ProfileRow}
use recodarr.Library.AddTag.{
  negsuc, with_number, with_label, tag_number, with_profile, Checked, with_mappings, with_mapping,
  with_tags, ℤ, TagWorld, label_in, find_tag_mapping, check_tag,
}

-- The tag is one of the service, with a label, and a mapping of it leads to a profile.
pub record IsUsable (w : TagWorld) (kind : Text) (t : ℕ) (label : Text) : Type 0 where
  pub tags : List Tag
  pub answered : w.tags ≡ some tags
  pub named : Any (λ (g : Tag). (g.id ≡ t) × (g.label ≡ label)) tags
  pub not_empty : label ≢ []
  pub mappings : List TagMappingRow
  pub listed : w.mappings_of kind ≡ some mappings
  pub mapping : TagMappingRow
  pub in_list : Any (λ m. m ≡ mapping) mappings
  pub of_tag : mapping.tag_id ≡ t
  pub profile : ProfileRow
  pub profile_found : w.profile_of mapping.profile_id ≡ some profile

label_known :
    (tags : List Tag) (t : ℕ) (label : Text)
    → label ≡ label_in tags t
    → is_empty label ≡ false
    → Any (λ (g : Tag). (g.id ≡ t) × (g.label ≡ label)) tags
label_known [] t label h e = cc (h, e)
label_known (g ∷ gs) t label h e = elim (Bool-cases (g.id == t)) [
  | inl k ↦ inl (ground (arith, k), ground (arith, k, h))
  | inr k ↦ inr (label_known gs t label (ground (arith, k, h)) e)
]

found_in :
    (ms : List TagMappingRow) (t : ℕ) (m : TagMappingRow)
    → find_tag_mapping ms t ≡ some m
    → Any (λ x. x ≡ m) ms × (m.tag_id ≡ t)
unfolding find_tag_mapping
found_in [] t m h = cc h
found_in (x ∷ xs) t m h = elim (Bool-cases (x.tag_id == t)) [
  | inl e ↦
      let k : x ≡ m = ground (arith, e, h) in
      (inl k, ap (λ (y : TagMappingRow). y.tag_id) (sym k) ∙ (==_iff x.tag_id t).0 e)
  | inr e ↦ let r = found_in xs t m (ground (arith, e, h)) in (inr r.0, r.1)
]

-- How the checks of a tag end.
abbrev pub CheckEnds : TagWorld → Text → Option ℤ → Checked → Type 0
CheckEnds w kind body (inl code) = code ≢ 200
CheckEnds w kind body (inr (t, label)) = (body ≡ some (pos t)) × IsUsable w kind t label

number_read : (body : Option ℤ) (t : ℕ) → tag_number body ≡ some t → body ≡ some (pos t)
number_read none t h = cc
number_read (some (negsuc n)) t h = cc
number_read (some (pos zero)) t h = cc
number_read (some (pos (suc n))) t h = cc

module _ (w : TagWorld) (kind : Text) (body : Option ℤ) (t : ℕ) (read : body ≡ some (pos t)) where
  profile_ends :
      (tags : List Tag) (label : Text) (ms : List TagMappingRow) (m : TagMappingRow)
      → w.tags ≡ some tags
      → label ≡ label_in tags t
      → is_empty label ≡ false
      → w.mappings_of kind ≡ some ms
      → find_tag_mapping ms t ≡ some m
      → (o : Option ProfileRow) → w.profile_of m.profile_id ≡ o
      → CheckEnds w kind body (with_profile t label o)
  profile_ends tags label ms m a b e l f none h = omega arith
  profile_ends tags label ms m a b e l f (some p) h = (
    read,
    record {
      tags = tags;
      answered = a;
      named = label_known tags t label b e;
      not_empty = λ k. (cc (ap is_empty k, e));
      mappings = ms;
      listed = l;
      mapping = m;
      in_list = (found_in ms t m f).0;
      of_tag = (found_in ms t m f).1;
      profile = p;
      profile_found = h;
    },
  )

  mapping_ends :
      (tags : List Tag) (label : Text) (ms : List TagMappingRow)
      → w.tags ≡ some tags
      → label ≡ label_in tags t
      → is_empty label ≡ false
      → w.mappings_of kind ≡ some ms
      → (o : Option TagMappingRow) → find_tag_mapping ms t ≡ o
      → CheckEnds w kind body (with_mapping w t label o)
  mapping_ends tags label ms a b e l none h = omega arith
  mapping_ends tags label ms a b e l (some m) h =
      profile_ends tags label ms m a b e l h (w.profile_of m.profile_id) refl

  mappings_ends :
      (tags : List Tag) (label : Text)
      → w.tags ≡ some tags
      → label ≡ label_in tags t
      → is_empty label ≡ false
      → (o : Option (List TagMappingRow)) → w.mappings_of kind ≡ o
      → CheckEnds w kind body (with_mappings w t label o)
  mappings_ends tags label a b e none h = omega arith
  mappings_ends tags label a b e (some ms) h =
      mapping_ends tags label ms a b e h (find_tag_mapping ms t) refl

  label_ends :
      (tags : List Tag) (label : Text)
      → w.tags ≡ some tags
      → label ≡ label_in tags t
      → CheckEnds w kind body (with_label w kind t label)
  label_ends tags [] a b = omega arith
  label_ends tags (c ∷ label) a b =
      mappings_ends tags (c ∷ label) a b refl (w.mappings_of kind) refl

  tags_end : (o : Option (List Tag)) → w.tags ≡ o → CheckEnds w kind body (with_tags w kind t o)
  tags_end none h = omega arith
  tags_end (some []) h = omega arith
  tags_end (some (g ∷ gs)) h = label_ends (g ∷ gs) (label_in (g ∷ gs) t) h refl

number_ends :
    (w : TagWorld) (kind : Text) (body : Option ℤ) (o : Option ℕ)
    → tag_number body ≡ o
    → CheckEnds w kind body (with_number w kind o)
number_ends w kind body none h = omega arith
number_ends w kind body (some t) h = tags_end w kind body t (number_read body t h) w.tags refl

pub check_ends :
    (w : TagWorld) (kind : Text) (body : Option ℤ) → CheckEnds w kind body (check_tag w kind body)
unfolding check_tag
check_ends w kind body = number_ends w kind body (tag_number body) refl
