-- ===== src/Base/Double.antt =====
-- double as its IEEE 754 bit pattern of 64 bits: one bit of sign, 11 of the exponent, 52 of the
-- fraction.
use Prim.Native.Nat.{ℕ, zero, suc, ◌+◌, ◌-◌, ◌*◌, ◌/◌, ◌%◌, ◌^◌}
use mathlib.Core.Path.{◌≡◌, refl}
use mathlib.Core.Bool.{Bool, true, false, not, ◌&&◌, ◌||◌}
use native.Mathlib.Omega.{arith}
use cppgraphqlgen.Base.Tests.{◌==◌, ltb, leb, if◌then◌else◌}
use cppgraphqlgen.Base.Int.{ℤ, pos, negsuc}

abbrev pub Double : Type 0
Double = ℕ

-- The pattern without its sign.
abbrev magnitude : Double → ℕ
magnitude d = d % 2 ^ 63

unfoldable pub is_nan : Double → Bool
is_nan d = ltb (2047 * 2 ^ 52) (magnitude d)

-- operator==: a NaN equals nothing, and the zeros of both signs are equal.
unfoldable pub double_eq : Double → Double → Bool
unfolding is_nan
double_eq a b = not (is_nan a) && not (is_nan b) && (a == b || magnitude a == 0 && magnitude b == 0)

pub double_eq_refl : (d : Double) → is_nan d ≡ false → double_eq d d ≡ true
unfolding double_eq
double_eq_refl d h = ground arith

-- The exponent of the highest bit of a positive number below 2 ^ fuel.
log2 : ℕ → ℕ → ℕ
log2 zero n = 0
log2 (suc fuel) n = let more = log2 fuel (n / 2) in if ltb n 2 then 0 else more + 1

-- A positive integer below 2 ^ 64, rounded to the nearest double, and to an even fraction halfway
-- between two.
of_magnitude : ℕ → Double
unfolding log2
of_magnitude zero = 0
of_magnitude n =
    let e = log2 64 n in
    let bias = (e + 1023) * 2 ^ 52 in
    let unit = 2 ^ (e - 52) in
    let rest = n % unit in
    let up = ltb unit (2 * rest) || 2 * rest == unit && n / unit % 2 == 1 in
    if leb e 52
    then bias + (n * 2 ^ (52 - e) - 2 ^ 52)
    else bias + (n / unit - 2 ^ 52) + (if up then 1 else 0)

-- static_cast<double> of an integer
unfoldable pub double_of_int : ℤ → Double
unfolding of_magnitude
double_of_int (pos n) = of_magnitude n
double_of_int (negsuc n) = 2 ^ 63 + of_magnitude (suc n)

double_of_int_one : double_of_int (pos 1) ≡ 0x3ff0000000000000
unfolding double_of_int
double_of_int_one = refl

double_of_int_minus_three : double_of_int (negsuc 2) ≡ 0xc008000000000000
unfolding double_of_int
double_of_int_minus_three = refl

-- 2 ^ 53 + 1 lies halfway, and goes to the even neighbour 2 ^ 53; 2 ^ 53 + 3 to 2 ^ 53 + 4.
double_of_int_halfway :
    (double_of_int (pos (2 ^ 53 + 1)) ≡ 0x4340000000000000)
    × (double_of_int (pos (2 ^ 53 + 3)) ≡ 0x4340000000000002)
unfolding double_of_int
double_of_int_halfway = (refl, refl)
