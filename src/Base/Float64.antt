-- ===== src/Base/Float64.antt =====
-- Go's float64, exactly. Every finite double is a whole multiple of 2^-1074, the smallest positive
-- one: `finite k` is k * 2^-1074. The two zeros are one value, which no comparison tells apart.
pub mod Arith
use Prim.Native.Nat.{ℕ, ◌*◌, ◌^◌}
use mathlib.Core.Path.{◌≡◌, refl}
use mathlib.Core.Bool.{Bool, true, false, not, ◌||◌}
use native.Mathlib.Omega.{arith}
use dashfetchr.Base.Int64.{ℤ, pos, ltb_ℤ, eqb_ℤ}

pub data Float64 : Type 0 where
  nan neg_inf pos_inf : Float64
  finite : ℤ → Float64

-- a < b: false where either is NaN.
unfoldable pub lt_f : Float64 → Float64 → Bool
lt_f nan b = false
lt_f neg_inf nan = false
lt_f neg_inf neg_inf = false
lt_f neg_inf _ = true
lt_f pos_inf b = false
lt_f (finite a) nan = false
lt_f (finite a) neg_inf = false
lt_f (finite a) pos_inf = true
lt_f (finite a) (finite b) = ltb_ℤ a b

-- a == b: false where either is NaN.
unfoldable pub eq_f : Float64 → Float64 → Bool
eq_f neg_inf neg_inf = true
eq_f pos_inf pos_inf = true
eq_f (finite a) (finite b) = eqb_ℤ a b
eq_f _ _ = false

-- The double with a whole value that needs at most 53 bits.
unfoldable pub whole : ℕ → Float64
whole n = finite (pos (n * 2 ^ 1074))

-- 0.5, for test data.
unfoldable pub half : Float64
half = finite (pos (2 ^ 1073))

abbrev pub is_nan : Float64 → Bool
is_nan nan = true
is_nan _ = false

-- Away from NaN, `<` is irreflexive, transitive and total.
pub lt_f_trans : (a b c : Float64) → lt_f a b ≡ true → lt_f b c ≡ true → lt_f a c ≡ true
unfolding lt_f
lt_f_trans a b c h k = ground arith

-- a <= b: false where either is NaN.
unfoldable pub le_f : Float64 → Float64 → Bool
unfolding lt_f eq_f
le_f a b = lt_f a b || eq_f a b

pub le_f-eq-not-lt_f :
    (a b : Float64) → is_nan a ≡ false → is_nan b ≡ false → le_f a b ≡ not (lt_f b a)
unfolding le_f
le_f-eq-not-lt_f a b h k = ground arith

pub whole-is_nan : (n : ℕ) → is_nan (whole n) ≡ false
unfolding whole
whole-is_nan n = refl
