-- ===== src/Base/Float64/Arith.antt =====
-- The arithmetic of float64: the exact result, rounded to the nearest double, ties to even.
-- A magnitude is a number of units of 2^-1074; the largest finite one is below 2^2098.
use Prim.Native.Nat.{ℕ, zero, suc, ◌+◌, ◌-◌, ◌*◌, ◌/◌, ◌%◌, ◌^◌}
use mathlib.Core.Bool.{Bool, true, false, ◌&&◌, ◌||◌}
use dashfetchr.Base.Tests.{ltb, leb, ◌==◌, if◌then◌else◌}
use dashfetchr.Base.Int64.{ℤ, pos, negsuc, pos_part, neg_part, ◌+ℤ◌}
use dashfetchr.Base.Float64.{Float64, nan, neg_inf, pos_inf, finite}

-- The number of binary digits of n, where n is below 2 ^ (2 ^ k). Every magnitude below has fewer than 8400
-- digits, so k is 14.
unfoldable bits : ℕ → ℕ → ℕ
bits zero n = n
bits (suc k) n =
    let half = 2 ^ 2 ^ k in
    let big = leb half n in (if big then 2 ^ k else 0) + bits k (if big then n / half else n)

-- n / d in steps of g, rounded to the nearest, ties to the even step.
unfoldable pub round_step : ℕ → ℕ → ℕ → ℕ
round_step n d g =
    let q = n / (d * g) in
    let r = n % (d * g) in
    let up = ltb (d * g) (2 * r) || (2 * r == d * g && q % 2 == 1) in (if up then q + 1 else q) * g

-- n / d with 53 significant digits.
unfoldable pub round_ratio : ℕ → ℕ → ℕ
unfolding bits round_step
round_ratio n d = round_step n d (2 ^ (bits 14 (n / d) - 53))

-- The double with this sign and magnitude; too large a one is an infinity.
unfoldable pub signed : Bool → ℕ → Float64
signed negative m =
    if leb (2 ^ 2098) m
    then (if negative then neg_inf else pos_inf)
    else finite (if negative then (if m == 0 then pos 0 else negsuc (m - 1)) else pos m)

abbrev pub magnitude : ℤ → ℕ
magnitude a = pos_part a + neg_part a

abbrev pub is_negative : ℤ → Bool
is_negative (pos n) = false
is_negative (negsuc n) = true

abbrev pub differ : Bool → Bool → Bool
differ true false = true
differ false true = true
differ _ _ = false

-- -a
unfoldable pub neg_f : Float64 → Float64
neg_f nan = nan
neg_f neg_inf = pos_inf
neg_f pos_inf = neg_inf
neg_f (finite (pos zero)) = finite (pos 0)
neg_f (finite (pos (suc n))) = finite (negsuc n)
neg_f (finite (negsuc n)) = finite (pos (suc n))

-- a + b
unfoldable pub add_f : Float64 → Float64 → Float64
unfolding signed round_ratio ◌+ℤ◌
add_f nan b = nan
add_f neg_inf nan = nan
add_f neg_inf pos_inf = nan
add_f neg_inf _ = neg_inf
add_f pos_inf nan = nan
add_f pos_inf neg_inf = nan
add_f pos_inf _ = pos_inf
add_f (finite a) nan = nan
add_f (finite a) neg_inf = neg_inf
add_f (finite a) pos_inf = pos_inf
add_f (finite a) (finite b) = signed (is_negative (a +ℤ b)) (round_ratio (magnitude (a +ℤ b)) 1)

-- a - b
unfoldable pub sub_f : Float64 → Float64 → Float64
unfolding add_f neg_f
sub_f a b = add_f a (neg_f b)

sign_of : Float64 → Bool
sign_of nan = false
sign_of neg_inf = true
sign_of pos_inf = false
sign_of (finite a) = is_negative a

-- An infinity times b, which is not finite or not zero.
infinite : Float64 → Float64 → Float64
unfolding sign_of
infinite a nan = nan
infinite a (finite (pos zero)) = nan
infinite a b = if differ (sign_of a) (sign_of b) then neg_inf else pos_inf

-- a * b
unfoldable pub mul_f : Float64 → Float64 → Float64
unfolding signed round_ratio infinite
mul_f nan b = nan
mul_f (finite a) (finite b) =
    signed (differ (is_negative a) (is_negative b))
      (round_ratio (magnitude a * magnitude b) (2 ^ 1074))
mul_f (finite a) nan = nan
mul_f (finite a) b = infinite b (finite a)
mul_f a b = infinite a b

-- Conversion to int of what does not fit is up to the processor: `wild` stands for it.
unfoldable pub to_int : (Float64 → ℤ) → Float64 → ℤ
to_int wild (finite (pos n)) =
    let q = n / 2 ^ 1074 in if ltb q (2 ^ 63) then pos q else wild (finite (pos n))
to_int wild (finite (negsuc n)) =
    let q = suc n / 2 ^ 1074 in
    if q == 0 then pos 0 else if leb q (2 ^ 63) then negsuc (q - 1) else wild (finite (negsuc n))
to_int wild f = wild f

-- a / b; a zero divisor is taken as the positive zero.
unfoldable pub div_f : Float64 → Float64 → Float64
unfolding signed round_ratio sign_of
div_f (finite a) (finite (pos zero)) =
    if magnitude a == 0 then nan else if is_negative a then neg_inf else pos_inf
div_f (finite a) (finite b) =
    signed (differ (is_negative a) (is_negative b))
      (round_ratio (magnitude a * 2 ^ 1074) (magnitude b))
div_f nan b = nan
div_f (finite a) nan = nan
div_f (finite a) b = finite (pos 0)
div_f a (finite b) = if differ (sign_of a) (is_negative b) then neg_inf else pos_inf
div_f a b = nan

-- math.Round: to the nearest whole number, halves away from zero.
unfoldable pub round_f : Float64 → Float64
round_f (finite (pos n)) = finite (pos ((n + 2 ^ 1073) / 2 ^ 1074 * 2 ^ 1074))
round_f (finite (negsuc n)) =
    let m = (suc n + 2 ^ 1073) / 2 ^ 1074 * 2 ^ 1074 in
    finite (if m == 0 then pos 0 else negsuc (m - 1))
round_f a = a

-- math.Pi
unfoldable pub pi : Float64
pi = finite (pos (884279719003555 * 2 ^ 1026))
