-- ===== src/Store/Config/Invariant/Mappings.antt =====
-- internal/store/queries.go: the statements keep the table of the mappings, whose profiles are in the
-- table of the profiles.
use recodarr.Prelude.{
  subst, All-append, text_eq_refl, All-imp, text_eq_iff, All-keep, ℕ, ◌<◌, ◌≡◌, refl, sym, ◌∙◌,
  Bool, true, false, not, List, [], ◌∷◌, none, keep, any_of, ◌==◌, arith, Bool-cases, inl, inr,
}
use recodarr.Store.Rows.{ProfileRow, TagMappingRow}
use recodarr.Store.Config.{
  Table, Config, is_mapping_kind, profile_is, same_tag, map_where, append_row, with_defaults,
  update_profile_row, upsert_profile, delete_profile, create_tag_mapping, delete_tag_mapping,
  with_rows, mark_deleted,
}
use recodarr.Store.Config.Tables.{
  Distinct-keep, Distinct-append, any_of-map_where, any_of-append, All_not_any, below-append,
  ids-append,
}
use recodarr.Store.Config.Invariant.{IsMappingTable, same_mapping_id}

-- Profiles with the same ids, or more.
leads-IsMappingTable :
    (ps qs : List ProfileRow) (t : Table TagMappingRow)
    → ((i : ℕ) → any_of (profile_is i) ps ≡ true → any_of (profile_is i) qs ≡ true)
    → IsMappingTable ps t
    → IsMappingTable qs t
leads-IsMappingTable ps qs t k h = record {
  below = h.below;
  ids = h.ids;
  tags = h.tags;
  kinds = h.kinds;
  leads =
      All-imp (λ r. any_of (profile_is r.profile_id) ps ≡ true)
        (λ r. any_of (profile_is r.profile_id) qs ≡ true) t.rows (λ r. k r.profile_id) h.leads;
}

keep-IsMappingTable :
    (ps : List ProfileRow) (p : TagMappingRow → Bool) (t : Table TagMappingRow)
    → IsMappingTable ps t
    → IsMappingTable ps (with_rows (keep p t.rows) t)
keep-IsMappingTable ps p t h = record {
  below = All-keep (λ r. r.id < t.next_id) p t.rows h.below;
  ids = Distinct-keep same_mapping_id p t.rows h.ids;
  tags = Distinct-keep same_tag p t.rows h.tags;
  kinds = All-keep (λ r. is_mapping_kind r.arr_kind ≡ true) p t.rows h.kinds;
  leads = All-keep (λ r. any_of (profile_is r.profile_id) ps ≡ true) p t.rows h.leads;
}

same_tag_comm : (a b : TagMappingRow) → same_tag a b ≡ same_tag b a
same_tag_comm a b = ground (
  arith,
  text_eq_iff a.arr_kind b.arr_kind,
  text_eq_iff b.arr_kind a.arr_kind,
  text_eq_refl a.arr_kind,
)

append-IsMappingTable :
    (ps : List ProfileRow) (r : TagMappingRow) (t : Table TagMappingRow)
    → is_mapping_kind r.arr_kind ≡ true
    → any_of (same_tag r) t.rows ≡ false
    → any_of (profile_is r.profile_id) ps ≡ true
    → IsMappingTable ps t
    → IsMappingTable ps (append_row (λ i. record r { id = i }) t)
unfolding append_row
append-IsMappingTable ps r t k u l h =
    let y : TagMappingRow = record r { id = t.next_id } in
    record {
      below = below-append (λ x. x.id) t.next_id t.rows y refl h.below;
      ids = ids-append (λ x. x.id) t.next_id t.rows y refl h.below h.ids;
      tags = Distinct-append same_tag t.rows y h.tags (
          All-imp (λ x. same_tag r x ≡ false) (λ x. same_tag x y ≡ false) t.rows
            (λ x q. same_tag_comm x y ∙ q) (All_not_any (same_tag r) t.rows u));
      kinds = All-append (λ x. is_mapping_kind x.arr_kind ≡ true) t.rows (y ∷ []) h.kinds (k, tt);
      leads =
          All-append (λ x. any_of (profile_is x.profile_id) ps ≡ true) t.rows (y ∷ []) h.leads
            (l, tt);
    }

pub create_tag_mapping-IsMappingTable :
    (r : TagMappingRow) (c : Config)
    → IsMappingTable c.profiles.rows c.mappings
    → IsMappingTable (create_tag_mapping r c).1.profiles.rows (create_tag_mapping r c).1.mappings
unfolding create_tag_mapping
create_tag_mapping-IsMappingTable r c h = elim (Bool-cases (is_mapping_kind r.arr_kind)) [
  | inl k ↦ elim (Bool-cases (any_of (same_tag r) c.mappings.rows)) [
    | inl u ↦ rw (k, u) h
    | inr u ↦ elim (Bool-cases (any_of (profile_is r.profile_id) c.profiles.rows)) [
      | inl l ↦ rw (k, u, l) (append-IsMappingTable c.profiles.rows r c.mappings k u l h)
      | inr l ↦ rw (k, u, l) h
    ]
  ]
  | inr k ↦ rw k h
]

pub delete_tag_mapping-IsMappingTable :
    (i : ℕ) (c : Config)
    → IsMappingTable c.profiles.rows c.mappings
    → IsMappingTable c.profiles.rows (delete_tag_mapping i c).mappings
unfolding delete_tag_mapping
delete_tag_mapping-IsMappingTable i c h =
    keep-IsMappingTable c.profiles.rows (λ m. not (m.id == i)) c.mappings h

pub delete_profile-IsMappingTable :
    (now i : ℕ) (c : Config)
    → IsMappingTable c.profiles.rows c.mappings
    → IsMappingTable (delete_profile now i c).profiles.rows (delete_profile now i c).mappings
unfolding delete_profile mark_deleted
delete_profile-IsMappingTable now i c h =
    let f = mark_deleted now in
    leads-IsMappingTable c.profiles.rows (map_where (profile_is i) f c.profiles.rows)
      (with_rows (keep (λ m. not (m.profile_id == i)) c.mappings.rows) c.mappings)
      (λ j e. any_of-map_where (profile_is j) (profile_is i) f (λ x. refl) c.profiles.rows ∙ e)
      (keep-IsMappingTable c.profiles.rows (λ m. not (m.profile_id == i)) c.mappings h)

pub upsert_profile-leads :
    (r : ProfileRow) (c : Config) (j : ℕ)
    → any_of (profile_is j) c.profiles.rows ≡ true
    → any_of (profile_is j) (upsert_profile r c).1.profiles.rows ≡ true
unfolding upsert_profile append_row with_defaults update_profile_row
upsert_profile-leads r c j e = ground (
  arith,
  e,
  any_of-append (profile_is j) c.profiles.rows
      (record (with_defaults r) { id = c.profiles.next_id; deleted_at = none } ∷ []),
  any_of-map_where (profile_is j) (profile_is r.id) (update_profile_row (with_defaults r))
      (λ x. refl) c.profiles.rows,
)

mappings-upsert_profile :
    (r : ProfileRow) (c : Config) → (upsert_profile r c).1.mappings ≡ c.mappings
unfolding upsert_profile
mappings-upsert_profile r c = ground arith

pub upsert_profile-IsMappingTable :
    (r : ProfileRow) (c : Config)
    → IsMappingTable c.profiles.rows c.mappings
    → IsMappingTable (upsert_profile r c).1.profiles.rows (upsert_profile r c).1.mappings
upsert_profile-IsMappingTable r c h =
    subst (λ t. IsMappingTable (upsert_profile r c).1.profiles.rows t)
      (sym (mappings-upsert_profile r c))
      (leads-IsMappingTable c.profiles.rows (upsert_profile r c).1.profiles.rows c.mappings
        (upsert_profile-leads r c) h)
