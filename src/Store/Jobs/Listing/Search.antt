-- ===== src/Store/Jobs/Listing/Search.antt =====
-- internal/store/queries.go: the search of ListJobs.
use recodarr.Prelude.{
  contains_text, lower, has_prefix, to_lower, ℕ, ◌≡◌, refl, ap, ◌∙◌, Bool, true, false, not, ◌&&◌,
  ◌||◌, Text, [], ◌∷◌, ◌++◌, any_of, ◌==◌, if◌then◌else◌, arith,
}
use recodarr.Store.Jobs.Listing.{like, any_suffix, search_pattern}

-- No byte of a search is a wildcard.
abbrev pub is_plain : Text → Bool
is_plain q = not (any_of (λ c. c == b'%' || c == b'_') q)

like_rest : (s : Text) → like (b'%' ∷ []) s ≡ true
unfolding like
like_rest [] = refl
like_rest (c ∷ s) = like_rest s

lower_twice : (c : ℕ) → lower (lower c) ≡ lower c
unfolding lower
lower_twice c = ground arith

lower_plain :
    (p : ℕ)
    → (p == b'%' || p == b'_') ≡ false
    → ((lower p == b'%') ≡ false) × ((lower p == b'_') ≡ false)
unfolding lower
lower_plain p h = ground arith

==_comm : (a b : ℕ) → (a == b) ≡ (b == a)
==_comm a b = ground arith

-- A pattern that ends in `%` and has no other wildcard is a prefix.
like_prefix :
    (q s : Text)
    → is_plain q ≡ true
    → like (to_lower q ++ b'%' ∷ []) (to_lower s) ≡ has_prefix (to_lower s) (to_lower q)
unfolding like to_lower has_prefix
like_prefix [] s h = like_rest (to_lower s)
like_prefix (p ∷ q) [] h = let k = lower_plain p (ground (arith, h)) in rw k.0 refl
like_prefix (p ∷ q) (c ∷ s) h =
    let k = lower_plain p (ground (arith, h)) in
    rw (k.0, k.1, lower_twice p, lower_twice c, ==_comm (lower p) (lower c))
      (ap (λ b. (lower c == lower p) && b) (like_prefix q s (ground (arith, h))))

or_if : (a b : Bool) → (a || b) ≡ (if a then true else b)
or_if true b = refl
or_if false b = refl

suffix_contains :
    (q s : Text)
    → is_plain q ≡ true
    → any_suffix (like (to_lower q ++ b'%' ∷ [])) (to_lower s)
      ≡ contains_text (to_lower s) (to_lower q)
unfolding to_lower contains_text
suffix_contains q [] h = like_prefix q [] h
suffix_contains q (c ∷ s) h =
    ap (λ b. b || any_suffix (like (to_lower q ++ b'%' ∷ [])) (to_lower s))
      (like_prefix q (c ∷ s) h)
    ∙ ap (λ b. has_prefix (to_lower (c ∷ s)) (to_lower q) || b) (suffix_contains q s h)
    ∙ or_if (has_prefix (to_lower (c ∷ s)) (to_lower q)) (contains_text (to_lower s) (to_lower q))

-- A search with no wildcard finds the titles that contain it, in whatever case.
pub like-search_pattern :
    (q title : Text)
    → is_plain q ≡ true
    → like (search_pattern q) (to_lower title) ≡ contains_text (to_lower title) (to_lower q)
unfolding like
like-search_pattern q title h = suffix_contains q title h
