-- ===== src/Tests/DecimalRuns.antt =====
-- Runs of the decimal arithmetic, and its theorems at fixed inputs.
use broker_ai.Base.{◌*◌, ◌^◌, ◌≡◌, refl, ◌-◌}
use broker_ai.Base.Int.{pos, negsuc, ◌+ℤ◌, ◌-ℤ◌}
use broker_ai.Decimal.{
  add, sub, mul, mul_int, div_int, div, round, round_ratio, ulp, ulp_from, half_even,
  coefficient_bound, unit, cents, one,
}

-- `Decimal(1) / 3` is 0.3333333333333333333333333333, and 2/3 ends in 7.
thirds :
    (div_int one 3 ≡ pos (3333333333333333333333333333 * 10 ^ 32))
    × (div_int (cents 200) 3 ≡ pos (6666666666666666666666666667 * 10 ^ 32))
unfolding div_int one round_ratio ulp ulp_from half_even coefficient_bound
thirds = (refl, refl)

-- 600.00 * 3 + 1.00 and the cost of a share.
costs :
    (add (mul_int (cents 60000) 3) (cents 100) ≡ cents 180100)
    × (div_int (cents 180100) 2 ≡ cents 90050)
    × (sub (cents 100) (cents 250) ≡ negsuc (150 * 10 ^ 58 - 1))
    × (mul (cents 1050) (cents 50) ≡ cents 525)
    × (div (cents 525) (cents 50) ≡ cents 1050)
unfolding add sub mul div mul_int div_int round round_ratio ulp ulp_from half_even coefficient_bound
    unit ◌+ℤ◌ ◌-ℤ◌
costs = (refl, refl, refl, refl, refl)

-- Ties go to the even neighbour.
ties : (half_even 5 2 ≡ 2) × (half_even 7 2 ≡ 4) × (half_even 8 3 ≡ 3)
unfolding half_even
ties = (refl, refl, refl)
