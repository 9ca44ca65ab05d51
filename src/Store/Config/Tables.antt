-- ===== src/Store/Config/Tables.antt =====
-- Lists of rows in which no two are alike, under inserts, updates and deletes.
use recodarr.Prelude.{
  All-imp, All-keep, on_if, All-append, ℕ, suc, ◌<◌, ◌≡◌, refl, ◌∙◌, Bool, true, false, ◌||◌, List,
  [], ◌∷◌, ◌++◌, keep, any_of, All, ◌==◌, if◌then◌else◌, arith, Bool-cases, inl, inr,
}
use recodarr.Store.Config.{map_where}

module _ {A : Type 0} where
  -- No two rows are alike.
  abbrev pub Distinct : (A → A → Bool) → List A → Type 0
  Distinct same [] = Unit {0}
  Distinct same (x ∷ xs) = All (λ y. same x y ≡ false) xs × Distinct same xs

  pub Distinct-keep :
      (same : A → A → Bool) (p : A → Bool) (xs : List A)
      → Distinct same xs
      → Distinct same (keep p xs)
  Distinct-keep same p [] d = tt
  Distinct-keep same p (x ∷ xs) d =
      on_if (Distinct same) (p x)
        (All-keep (λ y. same x y ≡ false) p xs d.0, Distinct-keep same p xs d.1)
        (Distinct-keep same p xs d.1)

  pub Distinct-append :
      (same : A → A → Bool) (xs : List A) (y : A)
      → Distinct same xs
      → All (λ x. same x y ≡ false) xs
      → Distinct same (xs ++ y ∷ [])
  Distinct-append same [] y d h = (tt, tt)
  Distinct-append same (x ∷ xs) y d h = (
    All-append (λ z. same x z ≡ false) xs (y ∷ []) d.0 (h.0, tt),
    Distinct-append same xs y d.1 h.1,
  )

  pub All-map_where :
      (P : A → Type 0) (p : A → Bool) (f : A → A) (xs : List A)
      → ((x : A) → p x ≡ true → P x → P (f x))
      → All P xs
      → All P (map_where p f xs)
  unfolding map_where
  All-map_where P p f [] k h = tt
  All-map_where P p f (x ∷ xs) k h = elim (Bool-cases (p x)) [
    | inl e ↦ rw e (k x e h.0, All-map_where P p f xs k h.1)
    | inr e ↦ rw e (h.0, All-map_where P p f xs k h.1)
  ]

  -- An update that changes nothing that `same` looks at.
  pub Distinct-map_where :
      (same : A → A → Bool) (p : A → Bool) (f : A → A)
      → ((x y : A) → same (f x) y ≡ same x y)
      → ((x y : A) → same x (f y) ≡ same x y)
      → (xs : List A) → Distinct same xs
      → Distinct same (map_where p f xs)
  unfolding map_where
  Distinct-map_where same p f l r [] d = tt
  Distinct-map_where same p f l r (x ∷ xs) d = (
    All-map_where (λ y. same (if p x then f x else x) y ≡ false) p f xs
        (λ y e h. r (if p x then f x else x) y ∙ h)
        (on_if (λ z. All (λ y. same z y ≡ false) xs) (p x)
          (All-imp (λ y. same x y ≡ false) (λ y. same (f x) y ≡ false) xs (λ y h. l x y ∙ h) d.0)
          d.0),
    Distinct-map_where same p f l r xs d.1,
  )

  -- An update of no row.
  pub map_where_none :
      (p : A → Bool) (f : A → A) (xs : List A) → any_of p xs ≡ false → map_where p f xs ≡ xs
  unfolding map_where
  map_where_none p f [] h = refl
  map_where_none p f (x ∷ xs) h = ground (arith, map_where_none p f xs)

  pub any_of-map_where :
      (q p : A → Bool) (f : A → A)
      → ((x : A) → q (f x) ≡ q x)
      → (xs : List A) → any_of q (map_where p f xs) ≡ any_of q xs
  unfolding map_where
  any_of-map_where q p f h [] = refl
  any_of-map_where q p f h (x ∷ xs) = ground (arith, h x, any_of-map_where q p f h xs)

  pub any_of-append :
      (q : A → Bool) (xs ys : List A) → any_of q (xs ++ ys) ≡ (any_of q xs || any_of q ys)
  any_of-append q [] ys = refl
  any_of-append q (x ∷ xs) ys = ground (arith, any_of-append q xs ys)

  pub All_not_any : (q : A → Bool) (xs : List A) → any_of q xs ≡ false → All (λ x. q x ≡ false) xs
  All_not_any q [] h = tt
  All_not_any q (x ∷ xs) h = (ground arith, All_not_any q xs (ground arith))

  pub All-any_of-false :
      (q : A → Bool) (xs : List A) → All (λ x. q x ≡ false) xs → any_of q xs ≡ false
  All-any_of-false q [] h = refl
  All-any_of-false q (x ∷ xs) h = ground (arith, h.0, All-any_of-false q xs h.1)

  -- A row that is inserted with the next id.
  module _ (id_of : A → ℕ) where
    pub below-append :
        (n : ℕ) (xs : List A) (y : A)
        → id_of y ≡ n
        → All (λ x. id_of x < n) xs
        → All (λ x. id_of x < suc n) (xs ++ y ∷ [])
    below-append n xs y e h =
        All-append (λ x. id_of x < suc n) xs (y ∷ [])
          (All-imp (λ x. id_of x < n) (λ x. id_of x < suc n) xs (λ x k. omega arith) h)
          (omega arith, tt)

    pub ids-append :
        (n : ℕ) (xs : List A) (y : A)
        → id_of y ≡ n
        → All (λ x. id_of x < n) xs
        → Distinct (λ a b. id_of a == id_of b) xs
        → Distinct (λ a b. id_of a == id_of b) (xs ++ y ∷ [])
    ids-append n xs y e h d =
        Distinct-append (λ a b. id_of a == id_of b) xs y d
          (All-imp (λ x. id_of x < n) (λ x. (id_of x == id_of y) ≡ false) xs (λ x k. ground arith)
            h)
