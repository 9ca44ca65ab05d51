-- ===== src/Prelude/Numbers.antt =====
-- strconv.Atoi and strconv.Itoa, for 64-bit integers.
use Prim.Native.Nat.{ℕ, zero, suc, ◌+◌, ◌-◌, ◌*◌, ◌/◌, ◌%◌, ◌^◌}
use mathlib.Core.Bool.{Bool, true, false, ◌&&◌}
use mathlib.Core.Option.{Option, none, some}
use mathlib.Core.List.{[], ◌∷◌, ◌++◌}
use recodarr.Prelude.Tests.{◌==◌, leb, ltb, if◌then◌else◌}
use recodarr.Prelude.Strings.{Text}
use recodarr.Prelude.Int.{ℤ, pos, negsuc}

abbrev pub is_digit : ℕ → Bool
is_digit c = leb b'0' c && leb c b'9'

-- The value of a string of digits, read after `n`.
unfoldable pub digits_value : ℕ → Text → Option ℕ
digits_value n [] = some n
digits_value n (c ∷ s) = if is_digit c then digits_value (n * 10 + (c - 48)) s else none

abbrev unsigned : Text → Option ℕ
unsigned [] = none
unsigned (c ∷ s) = digits_value 0 (c ∷ s)

abbrev neg_ℕ : ℕ → ℤ
neg_ℕ zero = pos 0
neg_ℕ (suc n) = negsuc n

abbrev plus_of : Option ℕ → ℤ × Bool
plus_of none = (pos 0, false)
plus_of (some n) = if ltb n (2 ^ 63) then (pos n, true) else (pos (2 ^ 63 - 1), false)

abbrev minus_of : Option ℕ → ℤ × Bool
minus_of none = (pos 0, false)
minus_of (some n) = if leb n (2 ^ 63) then (neg_ℕ n, true) else (negsuc (2 ^ 63 - 1), false)

-- `n, err := strconv.Atoi(s)`, with `err == nil` for the second part. Out of range, n is the nearest
-- integer; on a syntax error it is 0.
unfoldable pub atoi : Text → ℤ × Bool
unfolding digits_value
atoi [] = (pos 0, false)
atoi (c ∷ s) =
    if c == b'-'
    then minus_of (unsigned s)
    else if c == b'+'
    then plus_of (unsigned s)
    else plus_of (unsigned (c ∷ s))

-- The decimal digits of n, on fuel; `n < 10 ^ fuel` suffices.
unfoldable pub digits_of : ℕ → ℕ → Text
digits_of zero n = []
digits_of (suc f) n =
    let rest = digits_of f (n / 10) in
    if ltb n 10 then (48 + n) ∷ [] else rest ++ (48 + n % 10) ∷ []

-- `strconv.Itoa` of a number that is not negative: 20 digits hold every int64.
unfoldable pub itoa : ℕ → Text
unfolding digits_of
itoa = digits_of 20
