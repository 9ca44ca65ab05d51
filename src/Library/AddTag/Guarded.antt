-- ===== src/Library/AddTag/Guarded.antt =====
-- internal/api/library.go: when the handler of the tags calls the service, and what the cache keeps.
use recodarr.Prelude.{
  subst, sym, text_eq_iff, ℕ, ◌≡◌, ◌≢◌, refl, Bool, true, false, ◌||◌, Text, codes, text_eq, [],
  ◌∷◌, Option, none, some, arith, Bool-cases, inl, inr, ◌⊎◌,
}
use recodarr.Prelude.Int.{pos}
use recodarr.Library.Cache.{parse_arr_kind, LibraryCache, mark_tagged}
use recodarr.Library.AddTag.Marked.{IsMarked, mark_tagged-IsMarked}
use recodarr.Library.AddTag.{
  tag_answer, call_service, at_target, Checked, of_kind, parse_arr_kind, ArrInstanceRow, Target,
  of_instance, TagRequest, TagWorld, TagCall, TagAnswer, check_tag, library_add_tag,
  resolve_library_target,
}
use recodarr.Library.AddTag.Checks.{IsUsable, CheckEnds, check_ends}

-- The instance is the one that the address names, and of the kind that it names.
pub record IsAddressed (w : TagWorld) (r : TagRequest) (inst : ArrInstanceRow) : Type 0 where
  pub id : ℕ
  pub read : r.instance_id ≡ some id
  pub there : w.instance_of id ≡ some inst
  pub same_kind : inst.kind ≡ r.kind

-- An answer of the handler.
pub data IsGuarded (w : TagWorld) (r : TagRequest) (c : LibraryCache) (a : TagAnswer) : Type 0 where
  rejected : a.calls ≡ [] → a.cache ≡ c → a.code ≢ 200 → IsGuarded w r c a
  called :
      (call : TagCall) (label : Text)
      → a.calls ≡ call ∷ []
      → IsAddressed w r call.instance
      → r.item_id ≡ some call.item
      → r.tag_id ≡ some (pos call.tag)
      → IsUsable w r.kind call.tag label
      → (w.takes_tag ≡ true)
          × (a.code ≡ 200)
          × IsMarked r.kind call.instance.id call.item label c a.cache
        ⊎ (w.takes_tag ≡ false) × (a.code ≡ 502) × (a.cache ≡ c)
      → IsGuarded w r c a

-- How the reading of the address ends.
abbrev TargetEnds : TagWorld → TagRequest → Target → Type 0
TargetEnds w r (inl code) = code ≢ 200
TargetEnds w r (inr (inst, item)) = (r.item_id ≡ some item) × IsAddressed w r inst

kind_ends :
    (w : TagWorld) (r : TagRequest) (i item : ℕ) (o : Option ArrInstanceRow)
    → r.instance_id ≡ some i
    → r.item_id ≡ some item
    → w.instance_of i ≡ o
    → TargetEnds w r (of_kind r.kind item o)
kind_ends w r i item none h k l = omega arith
kind_ends w r i item (some inst) h k l = elim (Bool-cases (text_eq inst.kind r.kind)) [
  | inl e ↦
      rw e
        (k, record { id = i; read = h; there = l; same_kind = (text_eq_iff inst.kind r.kind).0 e })
  | inr e ↦ rw e (omega arith)
]

item_ends :
    (w : TagWorld) (r : TagRequest) (i o : Option ℕ)
    → r.instance_id ≡ i
    → r.item_id ≡ o
    → TargetEnds w r (of_instance w r.kind i o)
item_ends w r none o h k = omega arith
item_ends w r (some i) none h k = omega arith
item_ends w r (some i) (some item) h k = kind_ends w r i item (w.instance_of i) h k refl

target_ends : (w : TagWorld) (r : TagRequest) → TargetEnds w r (resolve_library_target w r)
unfolding resolve_library_target parse_arr_kind
target_ends w r =
    elim (Bool-cases (text_eq r.kind (codes "sonarr") || text_eq r.kind (codes "radarr"))) [
      | inl e ↦ rw e (item_ends w r r.instance_id r.item_id refl refl)
      | inr e ↦ rw e (omega arith)
    ]

module _ (w : TagWorld) (r : TagRequest) (c : LibraryCache) where
  answer-IsGuarded :
      (call : TagCall) (label : Text) (b : Bool)
      → w.takes_tag ≡ b
      → r.item_id ≡ some call.item
      → IsAddressed w r call.instance
      → CheckEnds w r.kind r.tag_id (inr (call.tag, label))
      → IsGuarded w r c (tag_answer call label c b)
  answer-IsGuarded call label true e i k h = called call label refl k i h.0 h.1 (
      inl (
        e,
        refl,
        subst
            (λ n.
              IsMarked r.kind call.instance.id call.item label c
                (mark_tagged n call.instance.id call.item label c))
            (sym k.same_kind) (mark_tagged-IsMarked call.instance.id call.item label r.kind c),
      ))
  answer-IsGuarded call label false e i k h =
      called call label refl k i h.0 h.1 (inr (e, refl, refl))

  call-IsGuarded :
      (inst : ArrInstanceRow) (item : ℕ) (k : Checked)
      → r.item_id ≡ some item
      → IsAddressed w r inst
      → CheckEnds w r.kind r.tag_id k
      → IsGuarded w r c (call_service w inst item c k)
  call-IsGuarded inst item (inl code) i k h = rejected refl refl h
  call-IsGuarded inst item (inr (t, label)) i k h =
      answer-IsGuarded (record { instance = inst; item = item; tag = t }) label w.takes_tag refl i k
        h

  target-IsGuarded : (o : Target) → TargetEnds w r o → IsGuarded w r c (at_target w r.tag_id c o)
  target-IsGuarded (inl code) h = rejected refl refl h
  target-IsGuarded (inr (inst, item)) h =
      call-IsGuarded inst item (check_tag w inst.kind r.tag_id) h.0 h.1 (
        subst (λ n. CheckEnds w n r.tag_id (check_tag w inst.kind r.tag_id)) h.1.same_kind
          (check_ends w inst.kind r.tag_id))

-- The handler calls the service at most once, for the item of the request at the instance that it
-- names, if that is of the kind that it names, and only for a tag that the service has, with a label,
-- and that has a mapping that leads to a profile. Exactly if the service was called and took the tag it
-- answers 200, and in both scans of the kind in the cache the rows of the item at the instance are
-- mapped and have the label besides those they had, among all labels and among the mapped ones; all
-- else in the cache is kept. In every other case it answers another code and leaves the cache.
pub library_add_tag-IsGuarded :
    (w : TagWorld) (r : TagRequest) (c : LibraryCache) → IsGuarded w r c (library_add_tag w r c)
unfolding library_add_tag
library_add_tag-IsGuarded w r c =
    target-IsGuarded w r c (resolve_library_target w r) (target_ends w r)
