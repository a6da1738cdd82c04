-- ===== src/Common/Powers.antt =====
-- Powers of two on the native numbers.
use native.Mathlib.Nat.{pow-suc, mul-le-mul_right, div-add-mod'}
use native.Mathlib.Decide.{dec_le, dec_lt}
use uringy.Common.{ℕ, zero, suc, ◌+◌, ◌*◌, ◌-◌, ◌/◌, ◌%◌, ◌^◌, ◌≤◌, ◌<◌, ◌≡◌, ap, arith}
use uringy.Common.Bits.{pow_pos}

pub pow_lt : (i j : ℕ) → i < j → 2 ^ i < 2 ^ j
pow_lt i zero h = absurd (omega arith)
pow_lt i (suc j) h = elim (dec_lt i j) [
  | yes p ↦ omega (arith, pow_lt i j p, pow-suc 2 j)
  | no p ↦
      let e : i ≡ j = omega arith in omega (arith, ap (λ (n : ℕ). 2 ^ n) e, pow-suc 2 j, pow_pos j)
]

pub le_of_pow_le : (i j : ℕ) → 2 ^ i ≤ 2 ^ j → i ≤ j
le_of_pow_le i j h = elim (dec_le i j) [
  | yes p ↦ p
  | no p ↦ absurd (omega (arith, pow_lt j i (omega arith)))
]

-- A larger power is a multiple of a smaller one.
pub pow_multiple : (j k : ℕ) → j ≤ k → (q : ℕ) × (2 ^ k ≡ q * 2 ^ j)
pow_multiple j zero h = let e : j ≡ 0 = omega arith in (1, omega (arith, ap (λ (n : ℕ). 2 ^ n) e))
pow_multiple j (suc k) h = elim (dec_le j k) [
  | yes p ↦ let (q, e) = pow_multiple j k p in (2 * q, omega (arith, e, pow-suc 2 k))
  | no p ↦ let e : j ≡ suc k = omega arith in (1, omega (arith, ap (λ (n : ℕ). 2 ^ n) e))
]

-- A multiple of `p` that is at least `n` is at least the next multiple after `n`.
pub multiple-le : (p n q : ℕ) → 0 < n % p → n % p < p → n ≤ q * p → n + (p - n % p) ≤ q * p
multiple-le p n q h small le = elim (dec_le q (n / p)) [
  | yes below ↦ absurd (omega (arith, div-add-mod' n p, mul-le-mul_right p below))
  | no above ↦
      let more : suc (n / p) ≤ q = omega arith in
      omega (arith, div-add-mod' n p, mul-le-mul_right p more)
]
