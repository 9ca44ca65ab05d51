-- ===== src/Prelude/Order/Best.antt =====
-- The best of a list does not depend on the order in which the list is read.
use recodarr.Prelude.{
  ◌≡◌, refl, sym, ap, ◌∙◌, Bool, true, false, List, [], ◌∷◌, if◌then◌else◌, arith, Bool-cases, inl,
  inr, ◌⊎◌,
}
use mathlib.Core.List.{Perm, foldr}
use mathlib.Core.List.Perm

module _ {ℓ} {A : Type ℓ} (lt : A → A → Bool) where
  abbrev pub pick : A → A → A
  pick z a = if lt a z then a else z

  -- A loop that keeps the best value met so far.
  unfoldable pub best_from : A → List A → A
  best_from z [] = z
  best_from z (a ∷ as') = best_from (pick z a) as'

  module _ (irrefl : (a : A) → lt a a ≡ false)
      (trans : (a b c : A) → lt a b ≡ true → lt b c ≡ true → lt a c ≡ true)
      (total : (a b : A) → (lt a b ≡ true) ⊎ (lt b a ≡ true) ⊎ (a ≡ b)) where
    pick_comm : (z a b : A) → pick (pick z a) b ≡ pick (pick z b) a
    pick_comm z a b = elim (Bool-cases (lt a z)) [
      | inl p ↦ elim (Bool-cases (lt b z)) [
        | inl q ↦
            rw (p, q) (ground (arith, total a b, irrefl a, trans a b a, trans b a b, irrefl b))
        | inr q ↦ rw (p, q) (ground (arith, trans b a z))
      ]
      | inr p ↦ elim (Bool-cases (lt b z)) [
        | inl q ↦ rw (p, q) (ground (arith, trans a b z))
        | inr q ↦ rw (p, q) (rw p refl)
      ]
    ]

    best_from-pick : (z a : A) (l : List A) → best_from (pick z a) l ≡ pick (best_from z l) a
    unfolding best_from
    best_from-pick z a [] = refl
    best_from-pick z a (b ∷ l) =
        ap (λ w. best_from w l) (pick_comm z a b) ∙ best_from-pick (pick z b) a l

    best_from-foldr : (z : A) (l : List A) → best_from z l ≡ foldr (λ a w. pick w a) z l
    unfolding best_from
    best_from-foldr z [] = refl
    best_from-foldr z (a ∷ l) = best_from-pick z a l ∙ ap (λ w. pick w a) (best_from-foldr z l)

    pub best_from-perm :
        IsSet A → (z : A) {l l' : List A} → Perm l l' → best_from z l ≡ best_from z l'
    best_from-perm is_set z {l} {l'} p =
        best_from-foldr z l
        ∙ Perm.foldr-eq is_set (λ a w. pick w a) (λ a b w. pick_comm w b a) p z
        ∙ sym (best_from-foldr z l')
