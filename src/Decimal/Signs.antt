-- ===== src/Decimal/Signs.antt =====
-- What the decimal operations do to signs, orders and sums that fit.
use native.Mathlib.Nat.{mul-le-mul_right}
use broker_ai.Base.{ℕ, zero, suc, ◌+◌, ◌*◌, ◌≤◌, ◌<◌, ◌≡◌, arith, ap, ◌∙◌}
use broker_ai.Base.Int.{ℤ, pos, negsuc, pos_part, sub_ℕ, ◌+ℤ◌, ◌-ℤ◌, neg_ℤ, ◌≤ℤ◌, ◌<ℤ◌, int_laws}
use broker_ai.Decimal.Defs.{Amount, nought, round_ratio, round, add, sub, mul_int, div_int, negate}
use broker_ai.Decimal.Rounding.{round_ratio_pos, round_ratio_one, mul_pos}
use broker_ai.Decimal.Exact.{round_ratio_idem}

-- Rounding keeps the sign, and a value that is not zero does not become zero.
pub round_sign :
    (a : ℤ)
    → (nought ≤ℤ a → nought ≤ℤ round a)
      × (nought <ℤ a → nought <ℤ round a)
      × (a ≤ℤ nought → round a ≤ℤ nought)
unfolding round
round_sign (pos n) = ground (arith, round_ratio_one n)
round_sign (negsuc n) = ground (arith, round_ratio_one (suc n))

pub add_nonneg : (a b : Amount) → nought ≤ℤ a → nought ≤ℤ b → nought ≤ℤ add a b
unfolding add
add_nonneg a b p q = (round_sign (a +ℤ b)).0 (omega int_laws)

pub add_pos : (a b : Amount) → nought <ℤ a → nought ≤ℤ b → nought <ℤ add a b
unfolding add
add_pos a b p q = (round_sign (a +ℤ b)).1 (omega int_laws)

pub sub_nonneg : (a b : Amount) → b ≤ℤ a → nought ≤ℤ sub a b
unfolding sub
sub_nonneg a b p = (round_sign (a -ℤ b)).0 (omega int_laws)

pub mul_int_pos : (a : Amount) (k : ℕ) → nought <ℤ a → 0 < k → nought <ℤ mul_int a k
unfolding mul_int
mul_int_pos (pos n) k p q = ground (arith, mul_pos n k (omega arith) q, round_ratio_one (n * k))
mul_int_pos (negsuc n) k p q = absurd (omega arith)

-- `-a` costs no digit that `a` has.
pub negate-round : (a : ℤ) → negate a ≡ neg_ℤ (round a)
unfolding negate round neg_ℤ
negate-round (pos zero) = ground (arith, round_ratio_one 0)
negate-round (pos (suc n)) = ground arith
negate-round (negsuc n) = ground arith

-- Subtracting is adding the opposite, with the same rounding.
pub sub-eq-add : (a b : Amount) → sub a b ≡ add a (neg_ℤ b)
unfolding sub add
sub-eq-add a b = ap round {x = a -ℤ b} {y = a +ℤ neg_ℤ b} (omega int_laws)

round_negative : (m : ℕ) → 0 < m → round (sub_ℕ 0 m) ≡ sub_ℕ 0 (round_ratio m 1)
unfolding round
round_negative zero h = absurd (omega arith)
round_negative (suc n) h = ground arith

round_negsuc : (n : ℕ) → round (negsuc n) ≡ sub_ℕ 0 (round_ratio (suc n) 1)
unfolding round
round_negsuc n = ground arith

round_idem_pos : (n : ℕ) → round (round (pos n)) ≡ round (pos n)
unfolding round
round_idem_pos n = ground (arith, round_ratio_idem n 1)

-- Rounding twice is rounding once.
pub round_idem : (a : ℤ) → round (round a) ≡ round a
round_idem (pos n) = round_idem_pos n
round_idem (negsuc n) =
    let r = round_ratio (suc n) 1 in
    let positive : 0 < r = omega (arith, round_ratio_one (suc n)) in
    rw (round_negsuc n)
      (round_negative r positive ∙ ap (sub_ℕ 0) (round_ratio_idem (suc n) 1 (omega arith)))

-- At least 99 hundredths of an exact product or sum remain.
pub mul_int_lower :
    (a : Amount) (k : ℕ) → nought ≤ℤ a → 99 * (pos_part a * k) ≤ 100 * pos_part (mul_int a k)
unfolding mul_int
mul_int_lower (pos n) k p = ground (arith, round_ratio_one (n * k))
mul_int_lower (negsuc n) k p = absurd (omega arith)

pub add_lower :
    (a b : Amount)
    → nought ≤ℤ a
    → nought ≤ℤ b
    → 99 * (pos_part a + pos_part b) ≤ 100 * pos_part (add a b)
unfolding add round ◌+ℤ◌
add_lower (pos n) (pos m) p q = ground (arith, round_ratio_one (n + m))
add_lower (negsuc n) b p q = absurd (omega arith)
add_lower a (negsuc n) p q = absurd (omega arith)

-- A share of an amount does not vanish, if the amount has a unit for each two parts, and more.
pub div_int_pos :
    (a : Amount) (k : ℕ) → 0 < k → nought <ℤ a → k < 2 * pos_part a → nought <ℤ div_int a k
unfolding div_int
div_int_pos (pos n) k h p large = ground (arith, round_ratio_pos n k h)
div_int_pos (negsuc n) k h p large = absurd (omega arith)

-- The average price of two lots, as `add_purchase` computes it.
pub average_pos :
    (a b : Amount) (m n : ℕ)
    → nought <ℤ a
    → nought <ℤ b
    → 0 < m
    → 0 < n
    → nought <ℤ div_int (add (mul_int a m) (mul_int b n)) (m + n)
average_pos a b m n ha hb hm hn =
    let x = mul_int a m in
    let y = mul_int b n in
    let px = mul_int_pos a m ha hm in
    let py = mul_int_pos b n hb hn in
    let sum_pos = add_pos x y px (omega arith) in
    div_int_pos (add x y) (m + n) (omega arith) sum_pos (
      omega (
        arith,
        add_lower x y (omega arith) (omega arith),
        mul_int_lower a m (omega arith),
        mul_int_lower b n (omega arith),
        mul-le-mul_right m ha,
        mul-le-mul_right n hb,
      ))

-- A sum that has been computed loses nothing by being negated.
pub negate-add : (a b : Amount) → negate (add a b) ≡ neg_ℤ (add a b)
unfolding add
negate-add a b = negate-round (round (a +ℤ b)) ∙ ap neg_ℤ (round_idem (a +ℤ b))
