-- ===== src/Api/Sane.antt =====
-- internal/api/admin.go: what the handler of the profiles stores.
use recodarr.Prelude.{
  subst, on_if, All-append, ℕ, ◌≤◌, ◌≡◌, refl, sym, Bool, true, false, ◌&&◌, ◌||◌, Text, codes,
  text_eq, [], ◌∷◌, ◌++◌, Option, none, some, any_of, All, ◌==◌, if◌then◌else◌, arith, Bool-cases,
  inl, inr,
}
use recodarr.Prelude.Paths.{is_empty}
use recodarr.Prelude.Int.{ℤ, pos, negsuc}
use recodarr.Store.Rows.{ProfileRow}
use recodarr.Store.Config.{
  Config, with_defaults, update_profile_row, upsert_profile, map_where, append_row, profile_is,
  name_taken,
}
use recodarr.Store.Config.Tables.{All-map_where}
use recodarr.Api.Profiles.{
  upserted, ProfileDto, Encode, clamp, normalize_bloat_policy, profile_of_dto,
  upsert_profile_handler,
}

abbrev is_policy : Text → Bool
is_policy s =
    text_eq s (codes "off")
    || text_eq s (codes "keep_original")
    || text_eq s (codes "retry_higher_crf")

-- The values that the worker relies on are in range.
pub record IsSane (r : ProfileRow) : Type 0 where
  pub policy : is_policy r.bloat_policy ≡ true
  pub retries : r.bloat_retry_max ≤ 10
  pub step : (1 ≤ r.bloat_retry_step) × (r.bloat_retry_step ≤ 20)
  pub savings : r.bloat_min_savings_percent ≤ 50
  pub rate : is_empty r.rate_control ≡ false
  pub unit :
      (text_eq r.skip_bitrate_unit (codes "kbps")
        || text_eq r.skip_bitrate_unit (codes "mb_per_hour"))
      ≡ true

clamp_bounds : (v : ℤ) (lo hi : ℕ) → lo ≤ hi → (lo ≤ clamp v lo hi) × (clamp v lo hi ≤ hi)
unfolding clamp
clamp_bounds (negsuc n) lo hi h = ground arith
clamp_bounds (pos n) lo hi h = ground arith

policy-normalize : (s : Text) → is_policy (normalize_bloat_policy s) ≡ true
unfolding normalize_bloat_policy text_eq
policy-normalize s =
    elim (Bool-cases (text_eq s (codes "keep_original") || text_eq s (codes "retry_higher_crf"))) [
      | inl e ↦ rw e (ground (arith, e))
      | inr e ↦ rw e refl
    ]

not_empty : (t : Text) → is_empty (if is_empty t then codes "crf" else t) ≡ false
not_empty [] = refl
not_empty (c ∷ t) = refl

unit_known :
    (b : Bool)
    → (text_eq (if b then codes "kbps" else codes "mb_per_hour") (codes "kbps")
        || text_eq (if b then codes "kbps" else codes "mb_per_hour") (codes "mb_per_hour"))
      ≡ true
unfolding text_eq
unit_known true = refl
unit_known false = refl

stored-IsSane :
    (encode : Encode) (d : ProfileDto) (i : ℕ) (deleted : Option ℕ)
    → IsSane (record (with_defaults (profile_of_dto encode d)) { id = i; deleted_at = deleted })
unfolding with_defaults profile_of_dto
stored-IsSane encode d i deleted = record {
  policy = policy-normalize d.row.bloat_policy;
  retries = (clamp_bounds d.bloat_retry_max 0 10 (omega arith)).1;
  step = clamp_bounds d.bloat_retry_step 1 20 (omega arith);
  savings = (clamp_bounds d.bloat_min_savings_percent 0 50 (omega arith)).1;
  rate = not_empty (profile_of_dto encode d).rate_control;
  unit = unit_known (text_eq d.row.skip_bitrate_unit (codes "kbps"));
}

config-upserted : (d : ProfileDto) (x : Option ℕ × Config) → (upserted d x).1 ≡ x.1
config-upserted d (none, c) = refl
config-upserted d (some i, c) = refl

module _ (P : ProfileRow → Type 0) (sane : (r : ProfileRow) → IsSane r → P r) where
  upsert_profile-All :
      (encode : Encode) (d : ProfileDto) (c : Config)
      → All P c.profiles.rows
      → All P (upsert_profile (profile_of_dto encode d) c).1.profiles.rows
  unfolding upsert_profile append_row update_profile_row
  upsert_profile-All encode d c h =
      let r = profile_of_dto encode d in
      let new : All P (
          c.profiles.rows
          ++ record (with_defaults r) { id = c.profiles.next_id; deleted_at = none } ∷ []) =
        All-append P c.profiles.rows
          (record (with_defaults r) { id = c.profiles.next_id; deleted_at = none } ∷ []) h
          (sane _ (stored-IsSane encode d c.profiles.next_id none), tt) in
      let changed : All P
          (map_where (profile_is r.id) (update_profile_row (with_defaults r)) c.profiles.rows) =
        All-map_where P (profile_is r.id) (update_profile_row (with_defaults r)) c.profiles.rows
          (λ x e p. sane _ (stored-IsSane encode d x.id x.deleted_at)) h in
      let Q = λ (x : Option ℕ × Config). All P x.1.profiles.rows in
      on_if Q (r.id == 0) (on_if Q (any_of (λ p. text_eq p.name r.name) c.profiles.rows) h new) (
        on_if Q (any_of (profile_is r.id) c.profiles.rows && name_taken r.id r.name c.profiles.rows)
          h changed)

  -- If a property holds of every profile whose values are in range, and of every stored profile, then
  -- it holds of every stored profile after the handler, whatever it is sent: each row that it writes
  -- has its values in range.
  pub upsert_profile_handler-All :
      (encode : Encode) (body : Option ProfileDto) (c : Config)
      → All P c.profiles.rows
      → All P (upsert_profile_handler encode body c).1.profiles.rows
  unfolding upsert_profile_handler
  upsert_profile_handler-All encode none c h = h
  upsert_profile_handler-All encode (some d) c h =
      subst (λ (k : Config). All P k.profiles.rows)
        (sym (config-upserted d (upsert_profile (profile_of_dto encode d) c)))
        (upsert_profile-All encode d c h)
