-- ===== src/Prelude/Order/Sorting.antt =====
-- Sorting by a total order: the order in which the elements come does not matter.
use recodarr.Prelude.{
  ◌≡◌, refl, ap, ◌∙◌, Bool, true, false, ◌||◌, List, [], ◌∷◌, ◌++◌, any_of, if◌then◌else◌, arith,
  Bool-cases, inl, inr, ◌⊎◌,
}
use recodarr.Prelude.Order.{insert_by, sort_by}

module _ {ℓ} {A : Type ℓ} (less : A → A → Bool) where
  pub any_of-insert_by :
      (p : A → Bool) (x : A) (ys : List A) → any_of p (insert_by less x ys) ≡ (p x || any_of p ys)
  any_of-insert_by p x [] = refl
  any_of-insert_by p x (y ∷ ys) = ground (arith, any_of-insert_by p x ys)

  pub any_of-sort_by : (p : A → Bool) (xs : List A) → any_of p (sort_by less xs) ≡ any_of p xs
  unfolding sort_by
  any_of-sort_by p [] = refl
  any_of-sort_by p (x ∷ xs) =
      any_of-insert_by p x (sort_by less xs) ∙ ap (λ b. p x || b) (any_of-sort_by p xs)

  module _ (irrefl : (a : A) → less a a ≡ false)
      (trans : (a b c : A) → less a b ≡ true → less b c ≡ true → less a c ≡ true)
      (total : (a b : A) → (less a b ≡ true) ⊎ (less b a ≡ true) ⊎ (a ≡ b)) where
    insert_front :
        (x y : A) (l : List A)
        → (if less y x then y ∷ x ∷ l else x ∷ y ∷ l) ≡ (if less x y then x ∷ y ∷ l else y ∷ x ∷ l)
    insert_front x y l = ground (arith, total x y, trans x y x, trans y x y, irrefl x, irrefl y)

    between : (x y z : A) → less z x ≡ true → less z y ≡ false → less y x ≡ true
    between x y z h k = ground (arith, total y z, trans y z x)

    insert_comm :
        (x y : A) (l : List A)
        → insert_by less x (insert_by less y l) ≡ insert_by less y (insert_by less x l)
    insert_comm x y [] = insert_front x y []
    insert_comm x y (z ∷ l) = elim (Bool-cases (less z x)) [
      | inl p ↦ elim (Bool-cases (less z y)) [
        | inl q ↦ rw (p, q) (rw p (ap (λ r. z ∷ r) (insert_comm x y l)))
        | inr q ↦ rw (p, q) (rw (between x y z p q, p) refl)
      ]
      | inr p ↦ elim (Bool-cases (less z y)) [
        | inl q ↦ rw (p, q) (rw (between y x z q p) (rw p refl))
        | inr q ↦ rw (p, q) (rw p (insert_front x y (z ∷ l)))
      ]
    ]

    pub sort_by-insert_by :
        (x : A) (l : List A) → sort_by less (insert_by less x l) ≡ insert_by less x (sort_by less l)
    unfolding sort_by
    sort_by-insert_by x [] = refl
    sort_by-insert_by x (y ∷ l) = elim (Bool-cases (less y x)) [
      | inl p ↦
          rw p (ap (insert_by less y) (sort_by-insert_by x l) ∙ insert_comm y x (sort_by less l))
      | inr p ↦ rw p refl
    ]

    pub sort_by_twice : (l : List A) → sort_by less (sort_by less l) ≡ sort_by less l
    unfolding sort_by
    sort_by_twice [] = refl
    sort_by_twice (x ∷ l) =
        sort_by-insert_by x (sort_by less l) ∙ ap (insert_by less x) (sort_by_twice l)

    pub sort_by-append :
        (l : List A) (x : A) → sort_by less (l ++ x ∷ []) ≡ insert_by less x (sort_by less l)
    unfolding sort_by
    sort_by-append [] x = refl
    sort_by-append (y ∷ l) x =
        ap (insert_by less y) (sort_by-append l x) ∙ insert_comm y x (sort_by less l)
