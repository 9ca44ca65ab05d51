-- ===== src/Store/Config/Deletion.antt =====
-- internal/store/queries.go: a deleted profile is unmapped and unlisted, and still found.
use recodarr.Prelude.{
  on_if, subst, sym, map, ℕ, ◌≡◌, refl, ap, ◌∙◌, Bool, false, not, ◌||◌, Text, codes, text_eq, List,
  [], ◌∷◌, Option, none, some, keep, any_of, find_first, ◌==◌, arith, Bool-cases, Option-cases, inl,
  inr,
}
use recodarr.Store.Rows.{ProfileRow, TagMappingRow}
use recodarr.Store.Config.{
  is_empty, is_live, mark_deleted, map_found, Config, delete_profile, get_profile, list_profiles,
  list_tag_mappings_by_kind, map_where, profile_is, scan_profile, first_time, unless_deleted,
}

-- The profiles that can be listed.
abbrev lists : ℕ → List ProfileRow → Bool
lists i ps = any_of (profile_is i) ps

scan-id : (i : ℕ) (p : ProfileRow) → profile_is i (scan_profile p) ≡ profile_is i p
unfolding scan_profile
scan-id i p = ground arith

lists-scan : (i : ℕ) (ps : List ProfileRow) → lists i (map scan_profile ps) ≡ lists i ps
lists-scan i [] = refl
lists-scan i (p ∷ ps) = ground (arith, scan-id i p, lists-scan i ps)

not-is_live : (now : ℕ) (p : ProfileRow) → is_live (λ r. r.deleted_at) (mark_deleted now p) ≡ false
unfolding mark_deleted
not-is_live now p = elim (Option-cases p.deleted_at) [
  | inl e ↦
      ap
        (λ o.
          is_live (λ (r : ProfileRow). r.deleted_at) (record p { deleted_at = first_time now o }))
        e
  | inr (t, e) ↦
      ap
        (λ o.
          is_live (λ (r : ProfileRow). r.deleted_at) (record p { deleted_at = first_time now o }))
        e
]

id-mark_deleted : (now : ℕ) (p : ProfileRow) → (mark_deleted now p).id ≡ p.id
unfolding mark_deleted
id-mark_deleted now p = refl

unlisted :
    (now i : ℕ) (ps : List ProfileRow)
    → lists i
        (unless_deleted false (λ r. r.deleted_at) (map_where (profile_is i) (mark_deleted now) ps))
      ≡ false
unfolding map_where
unlisted now i [] = refl
unlisted now i (p ∷ ps) = elim (Bool-cases (p.id == i)) [
  | inl e ↦ rw e (rw (not-is_live now p) (unlisted now i ps))
  | inr e ↦ rw e (
      on_if (λ l. lists i l ≡ false) (is_live (λ (r : ProfileRow). r.deleted_at) p)
        (ground (arith, e, unlisted now i ps)) (unlisted now i ps))
]

unmapped :
    (i : ℕ) (kind : Text) (ms : List TagMappingRow)
    → any_of
        (λ m. m.profile_id == i)
        (keep
          (λ m. text_eq m.arr_kind kind || text_eq m.arr_kind (codes "both"))
          (keep (λ m. not (m.profile_id == i)) ms))
      ≡ false
unmapped i kind [] = refl
unmapped i kind (m ∷ ms) = ground (arith, unmapped i kind ms)

found_deleted :
    (now i : ℕ) (ps : List ProfileRow)
    → find_first (profile_is i) (map_where (profile_is i) (mark_deleted now) ps)
      ≡ map_found (mark_deleted now) (find_first (profile_is i) ps)
unfolding map_where
found_deleted now i [] = refl
found_deleted now i (p ∷ ps) = elim (Bool-cases (p.id == i)) [
  | inl e ↦ rw (e, id-mark_deleted now p, e) refl
  | inr e ↦ rw (e, e) (found_deleted now i ps)
]

scan-mark_deleted :
    (now : ℕ) (p : ProfileRow)
    → scan_profile (mark_deleted now p) ≡ mark_deleted now (scan_profile p)
unfolding scan_profile mark_deleted
scan-mark_deleted now p = elim (Bool-cases (is_empty p.skip_bitrate_unit)) [
  | inl e ↦ rw e refl
  | inr e ↦ rw e refl
]

scan_found :
    (now : ℕ) (o : Option ProfileRow)
    → map_found scan_profile (map_found (mark_deleted now) o)
      ≡ map_found (mark_deleted now) (map_found scan_profile o)
scan_found now none = refl
scan_found now (some p) = ap (λ q. some q) (scan-mark_deleted now p)

-- How a row is found after a deletion at `now`: with that time if it had none, or as it was.
pub data IsBuried (now : ℕ) (before after : Option ProfileRow) : Type 0 where
  absent : before ≡ none → after ≡ none → IsBuried now before after
  first :
      (p : ProfileRow)
      → before ≡ some p
      → p.deleted_at ≡ none
      → after ≡ some (record p { deleted_at = some now })
      → IsBuried now before after
  again :
      (p : ProfileRow) (t : ℕ)
      → before ≡ some p
      → p.deleted_at ≡ some t
      → after ≡ some p
      → IsBuried now before after

map_found-IsBuried :
    (now : ℕ) (o : Option ProfileRow) → IsBuried now o (map_found (mark_deleted now) o)
unfolding mark_deleted
map_found-IsBuried now none = absent refl refl
map_found-IsBuried now (some p) = elim (Option-cases p.deleted_at) [
  | inl e ↦ first p refl e (λ i. some (record p { deleted_at = first_time now (e i) }))
  | inr (t, e) ↦ again p t refl e (
      (λ i. some (record p { deleted_at = first_time now (e i) }))
      ∙ (λ i. some (record p { deleted_at = sym e i })))
]

-- After a profile is deleted no tag leads to it and it is not listed. It is still found, with the time of
-- the deletion if it was not deleted before; otherwise its row, with the time at which it was first
-- deleted, is as it was.
pub delete_profile_effects :
    (now i : ℕ) (c : Config) (kind : Text)
    → (any_of (λ m. m.profile_id == i) (list_tag_mappings_by_kind kind (delete_profile now i c))
        ≡ false)
      × (any_of (profile_is i) (list_profiles false (delete_profile now i c)) ≡ false)
      × IsBuried now (get_profile i c) (get_profile i (delete_profile now i c))
unfolding delete_profile list_tag_mappings_by_kind list_profiles get_profile
delete_profile_effects now i c kind = (
  unmapped i kind c.mappings.rows,
  lists-scan i (
        keep (is_live (λ (r : ProfileRow). r.deleted_at))
          (map_where (profile_is i) (mark_deleted now) c.profiles.rows))
      ∙ unlisted now i c.profiles.rows,
  subst (IsBuried now (get_profile i c))
      (sym (
        ap (map_found scan_profile) (found_deleted now i c.profiles.rows)
        ∙ scan_found now (find_first (profile_is i) c.profiles.rows)))
      (map_found-IsBuried now (get_profile i c)),
)
