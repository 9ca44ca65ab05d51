-- ===== src/Store/Config/Invariant/Profiles.antt =====
-- internal/store/queries.go: the statements on the profiles keep their table.
use recodarr.Prelude.{
  All-imp, subst, text_eq_refl, text_eq_iff, ℕ, ◌<◌, ◌≡◌, refl, sym, ap, ◌∙◌, false, Text, text_eq,
  List, [], ◌∷◌, none, any_of, All, ◌==◌, arith, Bool-cases, inl, inr,
}
use recodarr.Store.Rows.{ProfileRow}
use recodarr.Store.Config.{
  Table, Config, profile_is, map_where, append_row, name_taken, with_defaults, update_profile_row,
  upsert_profile, delete_profile, with_rows, mark_deleted,
}
use recodarr.Store.Config.Tables.{
  map_where_none, Distinct, Distinct-append, All-map_where, Distinct-map_where, All_not_any,
  below-append, ids-append,
}
use recodarr.Store.Config.Invariant.{IsProfileTable, same_profile_id, same_name}

text_eq_comm : (s t : Text) → text_eq s t ≡ text_eq t s
text_eq_comm s t = ground (arith, text_eq_iff s t, text_eq_iff t s, text_eq_refl s)

append-IsProfileTable :
    (t : Table ProfileRow) (r : ProfileRow)
    → any_of (λ p. text_eq p.name r.name) t.rows ≡ false
    → IsProfileTable t
    → IsProfileTable (append_row (λ i. record r { id = i; deleted_at = none }) t)
unfolding append_row
append-IsProfileTable t r k h =
    let y : ProfileRow = record r { id = t.next_id; deleted_at = none } in
    record {
      below = below-append (λ x. x.id) t.next_id t.rows y refl h.below;
      ids = ids-append (λ x. x.id) t.next_id t.rows y refl h.below h.ids;
      names =
          Distinct-append same_name t.rows y h.names
            (All_not_any (λ p. text_eq p.name r.name) t.rows k);
    }

-- The new name of the row that is updated is no other row's.
module _ (i : ℕ) (name : Text) (f : ProfileRow → ProfileRow) where
  other-names :
      (xs : List ProfileRow)
      → All (λ y. (y.id == i) ≡ false) xs
      → name_taken i name xs ≡ false
      → All (λ y. text_eq name y.name ≡ false) (map_where (profile_is i) f xs)
  unfolding map_where
  other-names [] k h = tt
  other-names (y ∷ ys) k h =
      let here : text_eq name y.name ≡ false = text_eq_comm name y.name ∙ ground (arith, h, k.0) in
      rw k.0 (here, other-names ys k.1 (ground (arith, h)))

  names-updated :
      ((x : ProfileRow) → (f x).name ≡ name)
      → (xs : List ProfileRow) → Distinct same_profile_id xs
      → Distinct same_name xs
      → name_taken i name xs ≡ false
      → Distinct same_name (map_where (profile_is i) f xs)
  unfolding map_where
  names-updated e [] d n h = tt
  names-updated e (x ∷ xs) d n h = elim (Bool-cases (x.id == i)) [
    | inl p ↦ rw p (
      subst (λ t. All (λ y. text_eq t y.name ≡ false) (map_where (profile_is i) f xs)) (sym (e x))
          (other-names xs
            (All-imp (λ y. (x.id == y.id) ≡ false) (λ y. (y.id == i) ≡ false) xs
              (λ y q. ground (arith, p, q)) d.0)
            (ground (arith, h))),
      names-updated e xs d.1 n.1 (ground (arith, h)),
    )
    | inr p ↦ rw p (
      All-map_where (λ y. text_eq x.name y.name ≡ false) (profile_is i) f xs
          (λ y q k. ap (text_eq x.name) (e y) ∙ ground (arith, h, p)) n.0,
      names-updated e xs d.1 n.1 (ground (arith, h)),
    )
  ]

update-IsProfileTable :
    (t : Table ProfileRow) (i : ℕ) (f : ProfileRow → ProfileRow)
    → ((x : ProfileRow) → (f x).id ≡ x.id)
    → Distinct same_name (map_where (profile_is i) f t.rows)
    → IsProfileTable t
    → IsProfileTable (with_rows (map_where (profile_is i) f t.rows) t)
update-IsProfileTable t i f e n h = record {
  below =
      All-map_where (λ x. x.id < t.next_id) (profile_is i) f t.rows
        (λ x p b. subst (λ m. m < t.next_id) (sym (e x)) b) h.below;
  ids =
      Distinct-map_where same_profile_id (profile_is i) f (λ x y. ap (λ m. m == y.id) (e x))
        (λ x y. ap (λ m. x.id == m) (e y)) t.rows h.ids;
  names = n;
}

pub delete_profile-IsProfileTable :
    (now i : ℕ) (c : Config)
    → IsProfileTable c.profiles
    → IsProfileTable (delete_profile now i c).profiles
unfolding delete_profile mark_deleted
delete_profile-IsProfileTable now i c h =
    let f = mark_deleted now in
    update-IsProfileTable c.profiles i f (λ x. refl)
      (Distinct-map_where same_name (profile_is i) f (λ x y. refl) (λ x y. refl) c.profiles.rows
        h.names)
      h

pub upsert_profile-IsProfileTable :
    (r : ProfileRow) (c : Config)
    → IsProfileTable c.profiles
    → IsProfileTable (upsert_profile r c).1.profiles
unfolding upsert_profile with_defaults update_profile_row
upsert_profile-IsProfileTable r c h = elim (Bool-cases (r.id == 0)) [
  | inl e ↦ elim (Bool-cases (any_of (λ p. text_eq p.name r.name) c.profiles.rows)) [
    | inl a ↦ rw (e, a) h
    | inr a ↦ rw (e, a) (append-IsProfileTable c.profiles (with_defaults r) a h)
  ]
  | inr e ↦ elim (Bool-cases (any_of (profile_is r.id) c.profiles.rows)) [
    | inl a ↦ elim (Bool-cases (name_taken r.id r.name c.profiles.rows)) [
      | inl b ↦ rw (e, a, b) h
      | inr b ↦
          rw (e, a, b)
            (update-IsProfileTable c.profiles r.id (update_profile_row (with_defaults r))
              (λ x. refl)
              (names-updated r.id r.name (update_profile_row (with_defaults r)) (λ x. refl)
                c.profiles.rows h.ids h.names b)
              h)
    ]
    | inr a ↦
        rw (e, a)
          (rw
            (map_where_none (profile_is r.id) (update_profile_row (with_defaults r)) c.profiles.rows
              a)
            h)
  ]
]
