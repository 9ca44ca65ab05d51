-- ===== src/Library/Cache/Tagged.antt =====
-- internal/api/library.go: the row that the cache has after a tag was added.
use recodarr.Prelude.{
  text_eq_refl, ==_iff, if_false, if_true, ℕ, ◌≡◌, refl, sym, ap, ◌∙◌, Bool, true, false, ◌&&◌,
  Text, text_eq, List, [], ◌∷◌, ◌++◌, keep, any_of, ◌==◌, if◌then◌else◌, arith, Bool-cases, inl,
  inr,
}
use recodarr.Prelude.Order.{text_ltb, text_ltb_irrefl, text_ltb_trans, text_ltb_total, insert_by}
use mathlib.Core.List.{map-append}
use recodarr.Prelude.Order.Sorting.{any_of-sort_by, sort_by_twice, sort_by-append}
use recodarr.Arr.{LibraryItem}
use recodarr.Store.Rows.{ArrInstanceRow, TagMappingRow}
use recodarr.Library.{map, label_of, is_mapped, build_library_item, sort_strings}
use recodarr.Library.Cache.{add_label, tag_item}

add_label-sort :
    (l : Text) (xs : List Text)
    → any_of (λ t. text_eq t l) xs ≡ false
    → add_label l (sort_strings xs) ≡ sort_strings (xs ++ l ∷ [])
unfolding add_label
add_label-sort l xs h =
    if_false (any_of (λ t. text_eq t l) (sort_strings xs)) (sort_strings xs)
      (any_of-sort_by text_ltb (λ t. text_eq t l) xs ∙ h)
      (sort_by-append text_ltb text_ltb_irrefl text_ltb_trans text_ltb_total (sort_strings xs) l
        ∙ ap (insert_by text_ltb l)
            (sort_by_twice text_ltb text_ltb_irrefl text_ltb_trans text_ltb_total xs)
        ∙ sym (sort_by-append text_ltb text_ltb_irrefl text_ltb_trans text_ltb_total xs l))

add_label_known :
    (l : Text) (xs : List Text)
    → any_of (λ t. text_eq t l) xs ≡ true
    → add_label l (sort_strings xs) ≡ sort_strings xs
unfolding add_label
add_label_known l xs h =
    if_true (any_of (λ t. text_eq t l) (sort_strings xs)) (sort_strings (sort_strings xs ++ l ∷ []))
      (any_of-sort_by text_ltb (λ t. text_eq t l) xs ∙ h) refl

-- The tags of an item after the service was told to add one.
abbrev pub add_tag_id : ℕ → List ℕ → List ℕ
add_tag_id t ids = if any_of (λ i. i == t) ids then ids else ids ++ t ∷ []

module _ (labels : ℕ → Text) (t : ℕ) where
  abbrev pub has_label : List ℕ → Bool
  has_label ids = any_of (λ s. text_eq s (label_of labels t)) (map (label_of labels) ids)

  has_label-keep :
      (p : ℕ → Bool) (ids : List ℕ)
      → p t ≡ true
      → any_of (λ i. i == t) ids ≡ true
      → has_label (keep p ids) ≡ true
  has_label-keep p [] h k = cc
  has_label-keep p (i ∷ ids) h k = elim (Bool-cases (i == t)) [
    | inl e ↦ rw ((==_iff i t).0 e, h, text_eq_refl (label_of labels t)) refl
    | inr e ↦ ground (arith, e, k, has_label-keep p ids h)
  ]

  not-has_label-keep :
      (p : ℕ → Bool) (ids : List ℕ) → has_label ids ≡ false → has_label (keep p ids) ≡ false
  not-has_label-keep p [] h = refl
  not-has_label-keep p (i ∷ ids) h = ground (arith, not-has_label-keep p ids)

  keep_all : (ids : List ℕ) → keep (λ i. true) ids ≡ ids
  keep_all [] = refl
  keep_all (i ∷ ids) = ap (λ l. i ∷ l) (keep_all ids)

  keep-added :
      (p : ℕ → Bool) (ids : List ℕ) → p t ≡ true → keep p (ids ++ t ∷ []) ≡ keep p ids ++ t ∷ []
  keep-added p [] h = rw h refl
  keep-added p (i ∷ ids) h = ground (arith, keep-added p ids h)

  any_of-added : (p : ℕ → Bool) (ids : List ℕ) → p t ≡ true → any_of p (ids ++ t ∷ []) ≡ true
  any_of-added p [] h = rw h refl
  any_of-added p (i ∷ ids) h = ground (arith, any_of-added p ids h)

  any_of-known :
      (p : ℕ → Bool) (ids : List ℕ)
      → p t ≡ true
      → any_of (λ i. i == t) ids ≡ true
      → any_of p ids ≡ true
  any_of-known p [] h k = cc
  any_of-known p (i ∷ ids) h k = elim (Bool-cases (i == t)) [
    | inl e ↦ rw ((==_iff i t).0 e, h) refl
    | inr e ↦ ground (arith, e, k, any_of-known p ids h)
  ]

  -- The labels of the tags that pass a test, sorted.
  labels_where : (ℕ → Bool) → List ℕ → List Text
  labels_where p ids = sort_strings (map (label_of labels) (keep p ids))

  labels_where-added :
      (p : ℕ → Bool) (ids : List ℕ)
      → p t ≡ true
      → (any_of (λ i. i == t) ids ≡ false → has_label ids ≡ false)
      → add_label (label_of labels t) (labels_where p ids) ≡ labels_where p (add_tag_id t ids)
  unfolding labels_where
  labels_where-added p ids h distinct = elim (Bool-cases (any_of (λ i. i == t) ids)) [
    | inl e ↦
        add_label_known (label_of labels t) (map (label_of labels) (keep p ids))
          (has_label-keep p ids h e)
        ∙ ap (labels_where p) (sym (if_true (any_of (λ i. i == t) ids) (ids ++ t ∷ []) e refl))
    | inr e ↦
        add_label-sort (label_of labels t) (map (label_of labels) (keep p ids))
          (not-has_label-keep p ids (distinct e))
        ∙ ap sort_strings (
            sym (map-append (label_of labels) (keep p ids) (t ∷ []))
            ∙ ap (map (label_of labels)) (sym (keep-added p ids h)))
        ∙ ap (labels_where p) (sym (if_false (any_of (λ i. i == t) ids) ids e refl))
  ]

  all_labels-added :
      (ids : List ℕ)
      → (any_of (λ i. i == t) ids ≡ false → has_label ids ≡ false)
      → add_label (label_of labels t) (sort_strings (map (label_of labels) ids))
        ≡ sort_strings (map (label_of labels) (add_tag_id t ids))
  unfolding labels_where
  all_labels-added ids distinct =
      ap (λ l. add_label (label_of labels t) (sort_strings (map (label_of labels) l)))
        (sym (keep_all ids))
      ∙ labels_where-added (λ i. true) ids refl distinct
      ∙ ap (λ l. sort_strings (map (label_of labels) l)) (keep_all (add_tag_id t ids))

  any_of-add_tag_id :
      (p : ℕ → Bool) (ids : List ℕ) → p t ≡ true → any_of p (add_tag_id t ids) ≡ true
  any_of-add_tag_id p ids h = elim (Bool-cases (any_of (λ i. i == t) ids)) [
    | inl e ↦ rw e (any_of-known p ids h e)
    | inr e ↦ rw e (any_of-added p ids h)
  ]

-- A row that the cache marks as tagged is the row that a new scan would build, once the service has
-- the tag: the tag is mapped, and no other tag of the item has its label.
pub tag_item-build_library_item :
    (inst : ArrInstanceRow) (it : LibraryItem) (labels : ℕ → Text) (ms : List TagMappingRow) (t : ℕ)
    → is_mapped ms t ≡ true
    → (any_of (λ i. i == t) it.tag_ids ≡ false → has_label labels t it.tag_ids ≡ false)
    → tag_item inst.id it.id (label_of labels t) (build_library_item inst it labels ms)
      ≡ build_library_item inst (record it { tag_ids = add_tag_id t it.tag_ids }) labels ms
unfolding tag_item build_library_item labels_where
tag_item-build_library_item inst it labels ms t h distinct =
    if_true (inst.id == inst.id && it.id == it.id) (build_library_item inst it labels ms)
      (ground arith)
      (λ i. record (build_library_item inst it labels ms) {
        mapped = sym (any_of-add_tag_id labels t (is_mapped ms) it.tag_ids h) i;
        tag_labels = all_labels-added labels t it.tag_ids distinct i;
        mapped_tags = labels_where-added labels t (is_mapped ms) it.tag_ids h distinct i;
      })
