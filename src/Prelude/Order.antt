-- ===== src/Prelude/Order.antt =====
-- The order of texts, sorting, and the choice of the best of a list.
use recodarr.Prelude.{
  Any, on_if, All-imp, ℕ, zero, suc, ◌+◌, ◌-◌, ◌*◌, ◌/◌, ◌%◌, ◌≤◌, ◌<◌, ◌≡◌, ◌≢◌, refl, sym, ap,
  ◌∙◌, Bool, true, false, not, ◌&&◌, ◌||◌, Text, codes, text_eq, List, [], ◌∷◌, ◌++◌, Option, none,
  some, length, take, drop, keep, any_of, find_first, count_of, All, ltb, leb, ◌==◌, if◌then◌else◌,
  arith, Bool-cases, Option-cases, inl, inr, ◌⊎◌,
}
use mathlib.Core.Logic.Or
use mathlib.Core.List.{Perm}
pub mod Best
pub mod Sorting

-- `strings.Compare(s, t) < 0`, and `s < t`.
unfoldable pub text_ltb : Text → Text → Bool
text_ltb s [] = false
text_ltb [] (d ∷ t) = true
text_ltb (c ∷ s) (d ∷ t) = if c == d then text_ltb s t else ltb c d

pub text_ltb_irrefl : (s : Text) → text_ltb s s ≡ false
unfolding text_ltb
text_ltb_irrefl [] = refl
text_ltb_irrefl (c ∷ s) = ground (arith, text_ltb_irrefl s)

pub text_ltb_trans :
    (s t u : Text) → text_ltb s t ≡ true → text_ltb t u ≡ true → text_ltb s u ≡ true
unfolding text_ltb
text_ltb_trans s [] u h k = cc
text_ltb_trans s (d ∷ t) [] h k = cc
text_ltb_trans [] (d ∷ t) (e ∷ u) h k = refl
text_ltb_trans (c ∷ s) (d ∷ t) (e ∷ u) h k = ground (arith, text_ltb_trans s t u)

pub text_ltb_total : (s t : Text) → (text_ltb s t ≡ true) ⊎ (text_ltb t s ≡ true) ⊎ (s ≡ t)
unfolding text_ltb
text_ltb_total [] [] = inr (inr refl)
text_ltb_total [] (d ∷ t) = inl refl
text_ltb_total (c ∷ s) [] = inr (inl refl)
text_ltb_total (c ∷ s) (d ∷ t) = ground (arith, text_ltb_total s t)

module _ {ℓ} {A : Type ℓ} where
  -- A loop that appends an element under a test.
  pub All-if {κ} :
      (P : A → Type κ) (b : Bool) (x : A) (ys : List A)
      → All P (if b then x ∷ ys else ys)
      → (b ≡ true → P x) × All P ys
  All-if P true x ys h = ((λ _. h.0), h.1)
  All-if P false x ys h = ((λ e. cc), h)

  pub Any-if :
      (P : A → Type 0) (b : Bool) (x : A) (ys : List A)
      → Any P (if b then x ∷ ys else ys)
      → ((b ≡ true) × P x) ⊎ Any P ys
  Any-if P true x ys (inl h) = inl (refl, h)
  Any-if P true x ys (inr h) = inr h
  Any-if P false x ys h = inr h

module _ {ℓ} {A : Type ℓ} (less : A → A → Bool) where
  -- One result of `sort.Slice`: it keeps the order of those that do not differ, as `sort.Slice` may.
  abbrev pub insert_by : A → List A → List A
  insert_by x [] = x ∷ []
  insert_by x (y ∷ ys) = if less y x then y ∷ insert_by x ys else x ∷ y ∷ ys

  unfoldable pub sort_by : List A → List A
  sort_by [] = []
  sort_by (x ∷ xs) = insert_by x (sort_by xs)

  -- Sorting keeps what holds of every element.
  pub All-insert_by {κ} :
      (P : A → Type κ) (x : A) (ys : List A) → P x → All P ys → All P (insert_by x ys)
  All-insert_by P x [] h k = (h, tt)
  All-insert_by P x (y ∷ ys) h k = elim (Bool-cases (less y x)) [
    | inl e ↦ rw e (k.0, All-insert_by P x ys h k.1)
    | inr e ↦ rw e (h, k)
  ]

  All-branch {κ} :
      (P : A → Type κ) (x y : A) (zs ys : List A) (b : Bool)
      → (All P zs → P x × All P ys)
      → All P (if b then y ∷ zs else x ∷ y ∷ ys)
      → P x × All P (y ∷ ys)
  All-branch P x y zs ys true f h = ((f h.1).0, (h.0, (f h.1).1))
  All-branch P x y zs ys false f h = h

  pub All-insert_by_back {κ} :
      (P : A → Type κ) (x : A) (ys : List A) → All P (insert_by x ys) → P x × All P ys
  All-insert_by_back P x [] h = (h.0, tt)
  All-insert_by_back P x (y ∷ ys) h =
      All-branch P x y (insert_by x ys) ys (less y x) (All-insert_by_back P x ys) h

  pub All-sort_by {κ} : (P : A → Type κ) (xs : List A) → All P xs → All P (sort_by xs)
  unfolding sort_by
  All-sort_by P [] h = tt
  All-sort_by P (x ∷ xs) h = All-insert_by P x (sort_by xs) h.0 (All-sort_by P xs h.1)

  pub All-sort_by_back {κ} : (P : A → Type κ) (xs : List A) → All P (sort_by xs) → All P xs
  unfolding sort_by
  All-sort_by_back P [] h = tt
  All-sort_by_back P (x ∷ xs) h =
      let r = All-insert_by_back P x (sort_by xs) h in (r.0, All-sort_by_back P xs r.1)

  Any-branch :
      (P : A → Type 0) (x y : A) (zs ys : List A) (b : Bool)
      → (Any P zs → P x ⊎ Any P ys)
      → Any P (if b then y ∷ zs else x ∷ y ∷ ys)
      → P x ⊎ Any P (y ∷ ys)
  Any-branch P x y zs ys true f (inl h) = inr (inl h)
  Any-branch P x y zs ys true f (inr h) = elim (f h) [ inl k ↦ inl k | inr k ↦ inr (inr k) ]
  Any-branch P x y zs ys false f h = h

  Any-insert_by_back :
      (P : A → Type 0) (x : A) (ys : List A) → Any P (insert_by x ys) → P x ⊎ Any P ys
  Any-insert_by_back P x [] h = h
  Any-insert_by_back P x (y ∷ ys) h =
      Any-branch P x y (insert_by x ys) ys (less y x) (Any-insert_by_back P x ys) h

  pub Any-sort_by_back : (P : A → Type 0) (xs : List A) → Any P (sort_by xs) → Any P xs
  unfolding sort_by
  Any-sort_by_back P [] h = h
  Any-sort_by_back P (x ∷ xs) h = elim (Any-insert_by_back P x (sort_by xs) h) [
    | inl k ↦ inl k
    | inr k ↦ inr (Any-sort_by_back P xs k)
  ]

  -- No element stands before one that is less.
  abbrev pub IsSorted : List A → Type 0
  IsSorted [] = Unit {0}
  IsSorted (x ∷ xs) = All (λ y. less y x ≡ false) xs × IsSorted xs

  module _ (asym : (a b : A) → less a b ≡ true → less b a ≡ false)
      (trans : (a b c : A) → less b a ≡ false → less c b ≡ false → less c a ≡ false) where
    insert_by-IsSorted : (x : A) (ys : List A) → IsSorted ys → IsSorted (insert_by x ys)
    insert_by-IsSorted x [] s = (tt, tt)
    insert_by-IsSorted x (y ∷ ys) s = elim (Bool-cases (less y x)) [
      | inl e ↦
          rw e (
            All-insert_by (λ z. less z y ≡ false) x ys (asym y x e) s.0,
            insert_by-IsSorted x ys s.1,
          )
      | inr e ↦ rw e (
        (
          e,
          All-imp (λ z. less z y ≡ false) (λ z. less z x ≡ false) ys (λ z k. trans x y z e k) s.0,
        ),
        s,
      )
    ]

    pub sort_by-IsSorted : (xs : List A) → IsSorted (sort_by xs)
    unfolding sort_by
    sort_by-IsSorted [] = tt
    sort_by-IsSorted (x ∷ xs) = insert_by-IsSorted x (sort_by xs) (sort_by-IsSorted xs)
