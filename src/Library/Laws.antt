-- ===== src/Library/Laws.antt =====
-- internal/api/library.go: what the order in which a map is iterated changes.
use recodarr.Prelude.{ℕ, ◌≡◌, ap, true, false, Text, List, [], arith, ◌⊎◌}
use mathlib.Core.List.{Perm}
use recodarr.Prelude.Order.{text_ltb_irrefl, text_ltb_trans, text_ltb_total}
use recodarr.Prelude.Order.Best.{best_from-perm}
use recodarr.Library.{most_common, more_common}

Count-IsSet : IsSet (Text × ℕ)
Count-IsSet = hlevel

more_common_irrefl : (a : Text × ℕ) → more_common a a ≡ false
more_common_irrefl (k, n) = ground (arith, text_ltb_irrefl k)

more_common_trans :
    (a b c : Text × ℕ) → more_common a b ≡ true → more_common b c ≡ true → more_common a c ≡ true
more_common_trans (k, n) (l, m) (j, p) h i = ground (arith, text_ltb_trans k l j)

more_common_total : (a b : Text × ℕ) → (more_common a b ≡ true) ⊎ (more_common b a ≡ true) ⊎ (a ≡ b)
more_common_total (k, n) (l, m) = ground (arith, text_ltb_total k l)

-- The most common value does not depend on the order in which the map of the counts is iterated.
pub most_common-perm : {l l' : List (Text × ℕ)} → Perm l l' → most_common l ≡ most_common l'
unfolding most_common
most_common-perm p =
    ap (λ c. c.0)
      (best_from-perm more_common more_common_irrefl more_common_trans more_common_total Count-IsSet
        ([], 0) p)
