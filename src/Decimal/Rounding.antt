-- ===== src/Decimal/Rounding.antt =====
-- How far `round_ratio` is from the exact quotient.
use native.Mathlib.Nat.{div-add-mod, mod-lt}
use broker_ai.Base.{
  ℕ, zero, suc, ◌+◌, ◌*◌, ◌/◌, ◌%◌, ◌^◌, ◌≤◌, ◌<◌, ◌≡◌, refl, ◌⊎◌, inl, inr, arith, ltb, ◌==◌, ap,
  Bool-cases,
}
use broker_ai.Decimal.Defs.{coefficient_bound, ulp_from, ulp, half_even, round_ratio}

pub mul_pos : (a b : ℕ) → 0 < a → 0 < b → 0 < a * b
mul_pos a b ha hb = grind arith

pub half_even-cases :
    (n m : ℕ)
    → (half_even n m ≡ n / m) × (2 * (n % m) ≤ m) ⊎ (half_even n m ≡ n / m + 1) × (m ≤ 2 * (n % m))
unfolding half_even
half_even-cases n m = elim (Bool-cases (ltb (2 * (n % m)) m)) [
  | inl below ↦ inl (rw below, ground arith)
  | inr h ↦ elim (Bool-cases (ltb m (2 * (n % m)))) [
    | inl above ↦ inr (rw (h, above), ground arith)
    | inr g ↦ elim (Bool-cases ((n / m % 2) == 0)) [
      | inl is_even ↦ inl (rw (h, g, is_even), ground arith)
      | inr is_odd ↦ inr (rw (h, g, is_odd), ground arith)
    ]
  ]
]

-- A rounded quotient is at most half a unit away from the exact one.
pub half_even_near :
    (n m : ℕ)
    → 0 < m
    → (2 * (m * half_even n m) ≤ 2 * n + m) × (2 * n ≤ 2 * (m * half_even n m) + m)
half_even_near n m h = elim (half_even-cases n m) [
  | inl (e, r) ↦ rw e (omega (arith, div-add-mod n m))
  | inr (e, r) ↦ rw e (omega (arith, div-add-mod n m, mod-lt n h))
]

-- The last place is fine enough for 28 digits, and no finer than need be.
pub ulp_from_lem :
    (fuel n bound p : ℕ)
    → 0 < p
    → 0 < bound
    → n < bound * p + fuel
    → (p ≡ 1) ⊎ (bound * p ≤ 10 * n)
    → let u = ulp_from fuel n bound p in
      (n < bound * u) × (0 < u) × ((u ≡ 1) ⊎ (bound * u ≤ 10 * n))
unfolding ulp_from
ulp_from_lem zero n bound p hp hb enough least = (omega arith, hp, least)
ulp_from_lem (suc f) n bound p hp hb enough least =
    ground (arith, mul_pos bound p hb hp, ulp_from_lem f n bound (10 * p))

pub ulp_lem :
    (n bound : ℕ)
    → 0 < bound
    → (n < bound * ulp n bound)
      × (0 < ulp n bound)
      × ((ulp n bound ≡ 1) ⊎ (bound * ulp n bound ≤ 10 * n))
unfolding ulp
ulp_lem n bound hb = ulp_from_lem n n bound 1 (omega arith) hb (omega arith) (inl refl)

-- The relative error of a rounded quotient is far below one part in a hundred, where the quotient
-- reaches one unit in the first of 28 places; below that the absolute error is half a unit.
pub round_ratio_near :
    (n d : ℕ)
    → 0 < d
    → let r = d * round_ratio n d in
      ((2 * r ≤ 2 * n + d) × (2 * n ≤ 2 * r + d)) ⊎ ((100 * r ≤ 101 * n) × (99 * n ≤ 100 * r))
unfolding round_ratio coefficient_bound
round_ratio_near n d h =
    let p = ulp n (d * 10 ^ 28) in
    let (below, positive, least) = ulp_lem n (d * 10 ^ 28) (omega arith) in
    let (lo, hi) = half_even_near n (d * p) (mul_pos d p h positive) in
    elim least [
      | inl e ↦
          inl (
            omega (arith, ap (λ (t : ℕ). t * d) e, ap (λ (t : ℕ). t * (d * half_even n (d * p))) e))
      | inr e ↦ inr (omega arith)
    ]

-- A result that reaches one unit does not vanish.
pub round_ratio_pos : (n d : ℕ) → 0 < d → d < 2 * n → 0 < round_ratio n d
round_ratio_pos n d h large = elim (round_ratio_near n d h) [
  | inl near ↦ grind arith
  | inr near ↦ grind arith
]

-- With no division, nothing is lost but beyond 28 digits.
pub round_ratio_one : (n : ℕ) → (99 * n ≤ 100 * round_ratio n 1) × (100 * round_ratio n 1 ≤ 101 * n)
round_ratio_one n = elim (round_ratio_near n 1 (omega arith)) [
  | inl near ↦ omega arith
  | inr near ↦ omega arith
]

small_multiple : (d r : ℕ) → 0 < d → (2 * (d * r) ≤ d) ⊎ (d * r ≤ 0) → r ≡ 0
small_multiple d zero h small = refl
small_multiple d (suc r) h small = absurd (omega arith)

pub round_ratio_nought : (d : ℕ) → 0 < d → round_ratio 0 d ≡ 0
round_ratio_nought d h = elim (round_ratio_near 0 d h) [
  | inl near ↦ small_multiple d (round_ratio 0 d) h (inl (omega arith))
  | inr near ↦ small_multiple d (round_ratio 0 d) h (inr (omega arith))
]
