-- ===== src/Decimal/Exact.antt =====
-- Where an exact result has at most 28 significant digits, rounding leaves it alone.
use native.Mathlib.Nat.{
  zero-add, suc-add, mul-lt-mul_of_pos_left, mul-le-mul_left, pow-suc, pow-succ', mul_comm,
}
use native.Mathlib.Decide.{dec_lt}
use broker_ai.Base.{
  ℕ, zero, suc, ◌+◌, ◌-◌, ◌*◌, ◌^◌, ◌≤◌, ◌<◌, ◌≡◌, refl, inl, inr, arith, ltb, ap, ◌∙◌, Bool-cases,
  false,
}
use broker_ai.Decimal.Defs.{coefficient_bound, ulp_from, ulp, half_even, round_ratio}
use broker_ai.Decimal.Rounding.{half_even_near, mul_pos, ulp_lem}

pow_pos : (k : ℕ) → 0 < 10 ^ k
pow_pos zero = omega arith
pow_pos (suc k) = rw (pow-suc 10 k) (omega (arith, pow_pos k))

bound_pos : 0 < coefficient_bound
unfolding coefficient_bound
bound_pos = omega arith

pow_split : (i m : ℕ) → 10 ^ (i + m) ≡ 10 ^ i * 10 ^ m
pow_split zero m = rw zero-add (omega arith)
pow_split (suc i) m =
    rw (suc-add, pow-succ' 10 (i + m), pow-succ' 10 i, pow_split i m) (omega arith)

half_even_exact : (q m : ℕ) → 0 < m → half_even (m * q) m ≡ q
half_even_exact q m h =
    let (lo, hi) = half_even_near (m * q) m h in
    elim (dec_lt q (half_even (m * q) m)) [
      | yes over ↦ absurd (omega (arith, mul-le-mul_left m over))
      | no le ↦ elim (dec_lt (half_even (m * q) m) q) [
        | yes under ↦ absurd (omega (arith, mul-le-mul_left m under))
        | no ge ↦ omega arith
      ]
    ]

at_top :
    (j k n bound : ℕ) → j ≤ k → ¬ (j < k) → n < bound * 10 ^ k → ltb n (bound * 10 ^ j) ≡ false → ⊥
at_top j k n bound le above fits more =
    let e : j ≡ k = omega arith in ground (arith, ap (λ (t : ℕ). bound * 10 ^ t) e)

-- The last place of a number that fits 28 digits at 10^k is a power of ten that divides 10^k.
ulp_from_power :
    (fuel n bound j k : ℕ)
    → n < bound * 10 ^ k
    → j ≤ k
    → (i : ℕ) × (ulp_from fuel n bound (10 ^ j) ≡ 10 ^ i) × (i ≤ k)
unfolding ulp_from
ulp_from_power zero n bound j k fits h = (j, refl, h)
ulp_from_power (suc f) n bound j k fits h = elim (Bool-cases (ltb n (bound * 10 ^ j))) [
  | inl enough ↦ (j, rw enough, h)
  | inr more ↦ elim (dec_lt j k) [
    | yes below ↦ rw (more, ← pow-succ' 10 j) (ulp_from_power f n bound (suc j) k fits below)
    | no above ↦ absurd (at_top j k n bound h above fits more)
  ]
]

round_ratio_at :
    (n d p : ℕ) → ulp n (d * coefficient_bound) ≡ p → round_ratio n d ≡ p * half_even n (d * p)
unfolding round_ratio
round_ratio_at n d p e = ap (λ (t : ℕ). t * half_even n (d * t)) e

half_even_at : (n d p q : ℕ) → 0 < d * p → n ≡ d * p * q → p * half_even n (d * p) ≡ p * q
half_even_at n d p q h e = rw e (ap (λ (t : ℕ). p * t) (half_even_exact q (d * p) h))

regroup : (c d k p q : ℕ) → k ≡ p * q → (d * (c * k) ≡ d * p * (c * q)) × (p * (c * q) ≡ c * k)
regroup c d k p q e =
    (omega (arith, ap (λ (t : ℕ). d * (c * t)) e), omega (arith, ap (λ (t : ℕ). c * t) e))

-- A quotient that has at most 28 significant digits, the last of them at 10^k units, is not rounded.
pub round_ratio_exact :
    (c k d : ℕ) → 0 < d → c < coefficient_bound → round_ratio (d * (c * 10 ^ k)) d ≡ c * 10 ^ k
unfolding ulp
round_ratio_exact c k d h small =
    let n = d * (c * 10 ^ k) in
    let bounded : n < d * coefficient_bound * 10 ^ k =
      omega (arith, mul-lt-mul_of_pos_left small (mul_pos d (10 ^ k) h (pow_pos k))) in
    let (i, e, le) = ulp_from_power n n (d * coefficient_bound) 0 k bounded (omega arith) in
    let split : 10 ^ k ≡ 10 ^ i * 10 ^ (k - i) =
      let whole : i + (k - i) ≡ k = omega arith in rw whole at (pow_split i (k - i)) in
    round_ratio_at n d (10 ^ i) e
    ∙ half_even_at n d (10 ^ i) (c * 10 ^ (k - i)) (mul_pos d (10 ^ i) h (pow_pos i))
        (regroup c d (10 ^ k) (10 ^ i) (10 ^ (k - i)) split).0
    ∙ (regroup c d (10 ^ k) (10 ^ i) (10 ^ (k - i)) split).1

ulp_from_is_power : (fuel n bound j : ℕ) → (i : ℕ) × (ulp_from fuel n bound (10 ^ j) ≡ 10 ^ i)
unfolding ulp_from
ulp_from_is_power zero n bound j = (j, refl)
ulp_from_is_power (suc f) n bound j = elim (Bool-cases (ltb n (bound * 10 ^ j))) [
  | inl enough ↦ (j, rw enough)
  | inr more ↦ rw (more, ← pow-succ' 10 j) (ulp_from_is_power f n bound (suc j))
]

half_even-le : (n m b : ℕ) → 0 < m → n < m * b → half_even n m ≤ b
half_even-le n m b h fits =
    let (lo, hi) = half_even_near n m h in
    elim (dec_lt b (half_even n m)) [
      | yes over ↦ absurd (omega (arith, mul-le-mul_left m over))
      | no le ↦ omega arith
    ]

pub keeps_digits : (c k : ℕ) → c < coefficient_bound → round_ratio (c * 10 ^ k) 1 ≡ c * 10 ^ k
keeps_digits c k small =
    let e : 1 * (c * 10 ^ k) ≡ c * 10 ^ k = omega arith in
    rw e at (round_ratio_exact c k 1 (omega arith) small)

-- 28 digits at 10^i, or the power of ten above them, fit as they are.
keeps_power : (h i : ℕ) → h ≤ coefficient_bound → round_ratio (h * 10 ^ i) 1 ≡ h * 10 ^ i
unfolding coefficient_bound
keeps_power h i le = elim (dec_lt h (10 ^ 28)) [
  | yes below ↦ keeps_digits h i below
  | no above ↦
      let top : h ≡ 10 ^ 28 = omega arith in
      let e : h * 10 ^ i ≡ 10 ^ 27 * 10 ^ suc i =
        rw (pow-succ' 10 i) (omega (arith, ap (λ (t : ℕ). t * 10 ^ i) top)) in
      rw e (keeps_digits (10 ^ 27) (suc i) (omega arith))
]

-- A rounded quotient is not changed by rounding it again.
pub round_ratio_idem : (n d : ℕ) → 0 < d → round_ratio (round_ratio n d) 1 ≡ round_ratio n d
unfolding ulp
round_ratio_idem n d h =
    let (i, e) = ulp_from_is_power n n (d * coefficient_bound) 0 in
    let q = half_even n (d * 10 ^ i) in
    let form : round_ratio n d ≡ q * 10 ^ i = round_ratio_at n d (10 ^ i) e ∙ mul_comm (10 ^ i) q in
    let (below, _, _) =
      ulp_lem n (d * coefficient_bound) (mul_pos d coefficient_bound h bound_pos) in
    let bounded : n < d * 10 ^ i * coefficient_bound = omega (arith, rw e at below) in
    rw form (
      keeps_power q i
        (half_even-le n (d * 10 ^ i) coefficient_bound (mul_pos d (10 ^ i) h (pow_pos i)) bounded))
