-- ===== src/Library/AddTag/Marked.antt =====
-- internal/api/library.go: what the cache holds after an item was marked as tagged.
use recodarr.Prelude.{
  if_false, text_eq_refl, text_eq_iff, ℕ, ◌≡◌, ◌≢◌, refl, sym, ◌∙◌, Bool, true, false, ◌||◌, ◌&&◌,
  Text, codes, text_eq, List, [], ◌∷◌, ◌++◌, Option, none, some, any_of, ◌==◌, arith, Bool-cases,
  inl, inr,
}
use recodarr.Prelude.Order.{text_ltb}
use recodarr.Prelude.Order.Sorting.{any_of-sort_by}
use recodarr.Library.{map, LibraryItemDto}
use recodarr.Library.Cache.{
  LibraryScanDto, LibraryCache, add_label, tag_item, tag_scan, mark_tagged,
}

abbrev pub has : Text → List Text → Bool
has u labels = any_of (λ t. text_eq t u) labels

-- The labels are those from before and the new one.
abbrev pub IsAdded : Text → List Text → List Text → Type 0
IsAdded label before after = (u : Text) → has u after ≡ has u before || text_eq label u

-- A row of the item is mapped and has the label, among all and among the mapped ones, and any other row
-- is as it was.
pub data IsRow (instance_id item_id : ℕ) (label : Text) (before after : LibraryItemDto)
    : Type 0 where
  other :
      ¬ ((before.instance_id ≡ instance_id) × (before.item_id ≡ item_id))
      → after ≡ before
      → IsRow instance_id item_id label before after
  tagged :
      (tag_labels mapped_tags : List Text)
      → before.instance_id ≡ instance_id
      → before.item_id ≡ item_id
      → IsAdded label before.tag_labels tag_labels
      → IsAdded label before.mapped_tags mapped_tags
      → after ≡ record before { mapped = true; tag_labels = tag_labels; mapped_tags = mapped_tags }
      → IsRow instance_id item_id label before after

abbrev pub AreRows : ℕ → ℕ → Text → List LibraryItemDto → List LibraryItemDto → Type 0
AreRows i n label [] [] = Unit
AreRows i n label (x ∷ xs) (y ∷ ys) = IsRow i n label x y × AreRows i n label xs ys
AreRows i n label _ _ = ⊥

-- A scan keeps all but its rows.
abbrev pub IsScan : ℕ → ℕ → Text → Option LibraryScanDto → Option LibraryScanDto → Type 0
IsScan i n label none none = Unit
IsScan i n label (some e) (some f) =
    (f ≡ record e { items = f.items }) × AreRows i n label e.items f.items
IsScan i n label _ _ = ⊥

-- The cache after an item was marked: both scans of the kind have it tagged, and all others are kept.
pub record IsMarked (kind : Text) (instance_id item_id : ℕ) (label : Text)
    (before after : LibraryCache) : Type 0 where
  pub shallow : IsScan instance_id item_id label (before kind) (after kind)
  pub deep :
      IsScan instance_id item_id label
        (before (kind ++ codes ":deep"))
        (after (kind ++ codes ":deep"))
  pub kept : (key : Text) → key ≢ kind → key ≢ kind ++ codes ":deep" → after key ≡ before key

any_of_text-append : (u l : Text) (xs : List Text) → has u (xs ++ l ∷ []) ≡ has u xs || text_eq l u
any_of_text-append u l [] = ground arith
any_of_text-append u l (x ∷ xs) = ground (arith, any_of_text-append u l xs)

known : (u l : Text) (xs : List Text) → has l xs ≡ true → has u xs ≡ has u xs || text_eq l u
known u l xs h = elim (Bool-cases (text_eq l u)) [
  | inl e ↦ rw (sym ((text_eq_iff l u).0 e), h) refl
  | inr e ↦ ground (arith, e)
]

add_label-IsAdded : (label : Text) (xs : List Text) → IsAdded label xs (add_label label xs)
unfolding add_label
add_label-IsAdded label xs u = elim (Bool-cases (has label xs)) [
  | inl e ↦ rw e (known u label xs e)
  | inr e ↦ rw e (
      any_of-sort_by text_ltb (λ t. text_eq t u) (xs ++ label ∷ []) ∙ any_of_text-append u label xs)
]

module _ (i n : ℕ) (label : Text) where
  tag_item-IsRow : (x : LibraryItemDto) → IsRow i n label x (tag_item i n label x)
  unfolding tag_item
  tag_item-IsRow x = elim (Bool-cases (x.instance_id == i && x.item_id == n)) [
    | inl e ↦ rw e (
        tagged (add_label label x.tag_labels) (add_label label x.mapped_tags) (ground (arith, e))
          (ground (arith, e)) (add_label-IsAdded label x.tag_labels)
          (add_label-IsAdded label x.mapped_tags) refl)
    | inr e ↦ rw e (other (λ h. ground (arith, e, h.0, h.1)) refl)
  ]

  rows_marked : (xs : List LibraryItemDto) → AreRows i n label xs (map (tag_item i n label) xs)
  rows_marked [] = tt
  rows_marked (x ∷ xs) = (tag_item-IsRow x, rows_marked xs)

  tag_scan-IsScan : (o : Option LibraryScanDto) → IsScan i n label o (tag_scan i n label o)
  tag_scan-IsScan none = tt
  tag_scan-IsScan (some e) = (refl, rows_marked e.items)

  differs : (s t : Text) → s ≢ t → text_eq s t ≡ false
  differs s t h = elim (Bool-cases (text_eq s t)) [
    | inl e ↦ absurd (h ((text_eq_iff s t).0 e))
    | inr e ↦ e
  ]

  pub mark_tagged-IsMarked :
      (kind : Text) (c : LibraryCache) → IsMarked kind i n label c (mark_tagged kind i n label c)
  unfolding mark_tagged
  mark_tagged-IsMarked kind c = record {
    shallow = rw (text_eq_refl kind) (tag_scan-IsScan (c kind));
    deep = elim (Bool-cases (text_eq (kind ++ codes ":deep") kind)) [
      | inl e ↦ rw e (tag_scan-IsScan (c (kind ++ codes ":deep")))
      | inr e ↦
          rw (e, text_eq_refl (kind ++ codes ":deep")) (tag_scan-IsScan (c (kind ++ codes ":deep")))
    ];
    kept = λ key h k.
        if_false (text_eq key kind || text_eq key (kind ++ codes ":deep"))
          (tag_scan i n label (c key))
          (rw (differs key kind h, differs key (kind ++ codes ":deep") k) refl) refl;
  }
