-- ===== src/Decimal/Defs.antt =====
-- Decimal values and the arithmetic on them. Every operation computes the exact result and rounds
-- it once to 28 significant digits, half to even, as a `decimal` context does; a result below
-- 10^-32 is rounded to a whole unit, which stands for the context's smallest exponent.
use broker_ai.Base.{
  ℕ, zero, suc, ◌+◌, ◌*◌, ◌/◌, ◌%◌, ◌^◌, Bool, ltb, ◌==◌, if◌then◌else◌, List, [], ◌∷◌,
}
use broker_ai.Base.Int.{ℤ, pos, pos_part, neg_part, sub_ℕ, ◌+ℤ◌, ◌-ℤ◌, neg_ℤ, ltb_ℤ, leb_ℤ}
use broker_ai.Base.Result.{Result, Error, ok, err}

-- `getcontext().prec` is 28: a coefficient is below this bound.
unfoldable pub coefficient_bound : ℕ
coefficient_bound = 10 ^ 28

-- The units in 1.
unfoldable pub unit : ℕ
unit = 10 ^ 60

-- A finite decimal, in units.
abbrev pub Amount : Type 0
Amount = ℤ

-- What a caller may pass: `is_finite()` is false of the infinities and of NaN.
pub data Decimal : Type 0 where
  finite : Amount → Decimal
  non_finite : Decimal

-- The least power of ten from `p` on with `n < bound * p`: the unit in the last place.
unfoldable pub ulp_from : ℕ → ℕ → ℕ → ℕ → ℕ
ulp_from zero n bound p = p
ulp_from (suc fuel) n bound p =
    let next = ulp_from fuel n bound (10 * p) in if ltb n (bound * p) then p else next

unfoldable pub ulp : ℕ → ℕ → ℕ
ulp n bound = ulp_from n n bound 1

-- The whole number nearest to n / m, ties to even.
unfoldable pub half_even : ℕ → ℕ → ℕ
half_even n m =
    let q = n / m in
    let r = 2 * (n % m) in
    if ltb r m then q else if ltb m r then q + 1 else if (q % 2) == 0 then q else q + 1

-- n / d to 28 significant digits.
unfoldable pub round_ratio : ℕ → ℕ → ℕ
round_ratio n d = let p = ulp n (d * coefficient_bound) in p * half_even n (d * p)

-- The sign is kept, as ROUND_HALF_EVEN is symmetric.
abbrev pub signed : Bool → ℕ → ℤ
signed negative n = if negative then sub_ℕ 0 n else pos n

abbrev pub is_negative : ℤ → Bool
is_negative a = ltb 0 (neg_part a)

abbrev pub magnitude : ℤ → ℕ
magnitude a = pos_part a + neg_part a

unfoldable pub round : ℤ → Amount
round a = signed (is_negative a) (round_ratio (magnitude a) 1)

-- `a + b`
unfoldable pub add : Amount → Amount → Amount
add a b = round (a +ℤ b)

-- `a - b`
unfoldable pub sub : Amount → Amount → Amount
sub a b = round (a -ℤ b)

abbrev pub differ : Bool → Bool → Bool
differ x y = if x then (if y then Bool.false else Bool.true) else y

-- `a * b`
unfoldable pub mul : Amount → Amount → Amount
mul a b =
    signed (differ (is_negative a) (is_negative b)) (round_ratio (magnitude a * magnitude b) unit)

-- `a * k` and `k * a` at a Python int that is not negative
unfoldable pub mul_int : Amount → ℕ → Amount
mul_int a k = signed (is_negative a) (round_ratio (magnitude a * k) 1)

-- `a / b`, for b that is not zero
unfoldable pub div : Amount → Amount → Amount
div a b =
    signed (differ (is_negative a) (is_negative b)) (round_ratio (magnitude a * unit) (magnitude b))

-- `a / k` at a positive Python int
unfoldable pub div_int : Amount → ℕ → Amount
div_int a k = signed (is_negative a) (round_ratio (magnitude a) k)

-- `-a`
unfoldable pub negate : Amount → Amount
negate a = round (neg_ℤ a)

-- `sum(values, start)`
unfoldable pub sum_from : Amount → List Amount → Amount
sum_from acc [] = acc
sum_from acc (x ∷ xs) = sum_from (add acc x) xs

abbrev pub nought : Amount
nought = pos 0

-- `Decimal("<cents>e-2")`
abbrev pub cents : ℕ → Amount
cents n = pos (n * 10 ^ 58)

unfoldable pub one : Amount
one = pos (10 ^ 60)

-- Guards that the constructors share: `is_finite()`, then a comparison with zero.
abbrev pub require_finite : Decimal → Result Amount
require_finite (finite a) = ok a
require_finite non_finite = err Error.not_finite

-- `not price.is_finite() or price <= 0`
abbrev pub require_positive : Decimal → Result Amount
require_positive (finite a) = if leb_ℤ a nought then err Error.not_positive else ok a
require_positive non_finite = err Error.not_finite

-- `not value.is_finite() or value < 0`
abbrev pub require_non_negative : Decimal → Result Amount
require_non_negative (finite a) = if ltb_ℤ a nought then err Error.negative_amount else ok a
require_non_negative non_finite = err Error.not_finite
