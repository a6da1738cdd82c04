-- ===== src/Common/Bits.antt =====
-- `n & (2^k - 1)` keeps the low k bits. The native `bit_and` stands for a recursion on digits.
use Prim.Native.Nat.{
  ℕ, zero, suc, ◌+◌, ◌-◌, ◌*◌, ◌/◌, ◌%◌, ◌^◌, ◌≤◌, ◌<◌, min, bit_and, digits, bit_and-bitwise,
}
use mathlib.Core.Path.{◌≡◌, refl, sym, ap, ◌∙◌}
use native.Mathlib.Nat.{pow-suc, mod-lt, div-add-mod, mul-add-mod_self_left, mod-eq_of_lt}
use native.Mathlib.Omega.{arith}

-- The digit recursion behind `bit_and a b`, with its fuel as an argument.
abbrev masked : ℕ → ℕ → ℕ → ℕ
masked fuel a b = digits (λ _. zero) min fuel a b

-- Any fuel from `a` on gives one result.
masked_enough : (f g a b : ℕ) → a ≤ f → a ≤ g → masked f a b ≡ masked g a b
masked_enough zero zero a b hf hg = refl
masked_enough zero (suc g) zero b hf hg = refl
masked_enough zero (suc g) (suc a) b hf hg = absurd (omega arith)
masked_enough (suc f) zero zero b hf hg = refl
masked_enough (suc f) zero (suc a) b hf hg = absurd (omega arith)
masked_enough (suc f) (suc g) zero b hf hg = refl
masked_enough (suc f) (suc g) (suc a) b hf hg =
    omega (arith, masked_enough f g (suc a / 2) (b / 2) (omega arith) (omega arith))

-- The lowest bit of `a & b`, and the bits above it.
low_bit : (a b : ℕ) → bit_and a b ≡ bit_and (a / 2) (b / 2) * 2 + min (a % 2) (b % 2)
low_bit zero b = omega (arith, bit_and-bitwise 0 b, bit_and-bitwise 0 (b / 2))
low_bit (suc a) b = omega (
  arith,
  bit_and-bitwise (suc a) b,
  bit_and-bitwise (suc a / 2) (b / 2),
  masked_enough a (suc a / 2) (suc a / 2) (b / 2) (omega arith) (omega arith),
)

and_zero_below : (f a : ℕ) → a ≤ f → bit_and a 0 ≡ 0
and_zero_below f zero h = refl
and_zero_below zero (suc a) h = absurd (omega arith)
and_zero_below (suc f) (suc a) h =
    omega (arith, low_bit (suc a) 0, and_zero_below f (suc a / 2) (omega arith))

-- `a mod 2q` from `a / 2 mod q`.
double_mod : (a q : ℕ) → 0 < q → a / 2 % q * 2 + a % 2 ≡ a % (2 * q)
double_mod a q h =
    let r : ℕ = a / 2 % q * 2 + a % 2 in
    let small : r < 2 * q = omega (arith, mod-lt (a / 2) h) in
    let split : a ≡ 2 * q * (a / 2 / q) + r = omega (arith, div-add-mod (a / 2) q) in
    sym (
      ap (λ n. n % (2 * q)) split
      ∙ (mul-add-mod_self_left (2 * q) (a / 2 / q) r ∙ mod-eq_of_lt small))

pub pow_pos : (k : ℕ) → 0 < 2 ^ k
pow_pos zero = omega arith
pow_pos (suc k) = omega (arith, pow_pos k, pow-suc 2 k)

-- Masking by k ones is the remainder by 2^k.
pub bit_and_mask : (k a : ℕ) → bit_and a (2 ^ k - 1) ≡ a % 2 ^ k
bit_and_mask zero a = omega (arith, and_zero_below a a (omega arith))
bit_and_mask (suc k) a =
    let half : (2 ^ suc k - 1) / 2 ≡ 2 ^ k - 1 = omega (arith, pow-suc 2 k, pow_pos k) in
    let odd : (2 ^ suc k - 1) % 2 ≡ 1 = omega (arith, pow-suc 2 k, pow_pos k) in
    let twice : 2 ^ suc k ≡ 2 * 2 ^ k = omega (arith, pow-suc 2 k) in
    low_bit a (2 ^ suc k - 1)
    ∙ (rw (half, odd, bit_and_mask k (a / 2), twice, ← double_mod a (2 ^ k) (pow_pos k))
        (omega arith))
