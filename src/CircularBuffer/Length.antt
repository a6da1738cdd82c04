-- ===== src/CircularBuffer/Length.antt =====
-- `calculate_length` of src/circular_buffer.rs: the size of a buffer.
use native.Mathlib.Nat.{pow-suc, mul-mod_left, mod-lt, mod-eq_of_lt, div-add-mod'}
use native.Mathlib.Decide.{ℕ_discrete, dec_le}
use uringy.Common.{
  ℕ, zero, suc, ◌+◌, ◌-◌, ◌*◌, ◌/◌, ◌%◌, ◌^◌, ◌≤◌, ◌<◌, ◌≡◌, ap, false, some, ok, arith,
}
use uringy.Common.Bits.{pow_pos}
use uringy.Common.Powers.{le_of_pow_le, pow_multiple, multiple-le}
use uringy.CircularBuffer.{calculate_length, next_multiple_of, power_from}

-- The doublings find the least power that is large enough, if one is within reach.
power_from_lem :
    (f i n : ℕ)
    → n ≤ 2 ^ (i + f)
    → (k : ℕ) × (power_from (suc f) (2 ^ i) n ≡ some (2 ^ k))
      × (n ≤ 2 ^ k)
      × ((l : ℕ) → i ≤ l → n ≤ 2 ^ l → k ≤ l)
unfolding power_from
power_from_lem zero i n h =
    let e : i + 0 ≡ i = omega arith in
    let h' : n ≤ 2 ^ i = omega (arith, ap (λ (m : ℕ). 2 ^ m) e) in
    (i, ground arith, h', λ l low le. low)
power_from_lem (suc f) i n h = elim (dec_le n (2 ^ i)) [
  | yes p ↦ (i, ground arith, p, λ l low le. low)
  | no p ↦
      let e : i + suc f ≡ suc i + f = omega arith in
      let h' : n ≤ 2 ^ (suc i + f) = omega (arith, ap (λ (m : ℕ). 2 ^ m) e) in
      let twice : 2 * 2 ^ i ≡ 2 ^ suc i = omega (arith, pow-suc 2 i) in
      let (k, found, le, least) = power_from_lem f (suc i) n h' in
      (k, ground (arith, twice, found), le, λ l low le'. least l (above i n l p low le') le')
]
  where
    above : (i n l : ℕ) → ¬ (n ≤ 2 ^ i) → i ≤ l → n ≤ 2 ^ l → suc i ≤ l
    above i n l p low le = elim (ℕ_discrete i l) [
      | yes e ↦ absurd (p (omega (arith, ap (λ (m : ℕ). 2 ^ m) e)))
      | no ne ↦ omega arith
    ]

-- `checked_next_multiple_of` below 2^64: the least multiple of a power of two.
next_multiple_of_lem :
    (j n : ℕ)
    → n ≤ 2 ^ 63
    → j ≤ 63
    → (m : ℕ) × (next_multiple_of n (2 ^ j) ≡ some m)
      × (n ≤ m)
      × (m ≤ 2 ^ 63)
      × (m % 2 ^ j ≡ 0)
      × ((l : ℕ) → j ≤ l → n ≤ 2 ^ l → m ≤ 2 ^ l)
unfolding next_multiple_of
next_multiple_of_lem j n h small =
    let p : ℕ = 2 ^ j in
    let pos : 0 < p = pow_pos j in
    let low : n % p < p = mod-lt n pos in
    elim (ℕ_discrete (n % p) 0) [
      | yes e ↦ (n, ground arith, omega arith, h, e, λ l _ le. le)
      | no ne ↦
          let m : ℕ = n + (p - n % p) in
          let next_multiple : m ≡ suc (n / p) * p = omega (arith, div-add-mod' n p) in
          let least : (l : ℕ) → j ≤ l → n ≤ 2 ^ l → m ≤ 2 ^ l =
            λ l jl le. bound l m jl le low (omega arith) in
          let top : m ≤ 2 ^ 63 = least 63 small h in
          (
            m,
            ground arith,
            omega arith,
            top,
            rw (next_multiple) (mul-mod_left (suc (n / p)) p),
            least,
          )
    ]
  where
    bound :
        (l m : ℕ)
        → j ≤ l
        → n ≤ 2 ^ l
        → n % 2 ^ j < 2 ^ j
        → 0 < n % 2 ^ j
        → n + (2 ^ j - n % 2 ^ j) ≤ 2 ^ l
    bound l m jl le low some_left =
        let (q, e) = pow_multiple j l jl in
        omega (arith, e, multiple-le (2 ^ j) n q some_left low (omega arith))

multiple_large : (p m : ℕ) → m % p ≡ 0 → 0 < m → p ≤ m
multiple_large p m e pos = elim (dec_le p m) [
  | yes le ↦ le
  | no more ↦ absurd (omega (arith, mod-eq_of_lt {n = m} {m = p} (omega arith)))
]

-- For a page size 2^j and a requested length from 1 up to 2^63, the length is the least power of two
-- that is at least the request and a multiple of the page size.
pub calculate_length_lem :
    (j n : ℕ)
    → j ≤ 63
    → 0 < n
    → n ≤ 2 ^ 63
    → (k : ℕ) × (calculate_length false (2 ^ j) n ≡ ok (2 ^ k))
      × (n ≤ 2 ^ k)
      × (2 ^ k % 2 ^ j ≡ 0)
      × ((l : ℕ) → j ≤ l → n ≤ 2 ^ l → k ≤ l)
unfolding calculate_length
calculate_length_lem j n small pos h =
    let (m, next, le, top, whole, least) = next_multiple_of_lem j n h small in
    let (k, found, le', least') = power_from_lem 63 0 m top in
    let large : 2 ^ j ≤ m = multiple_large (2 ^ j) m whole (omega arith) in
    let (q, e) = pow_multiple j k (le_of_pow_le j k (omega arith)) in
    (
      k,
      ground (arith, next, found),
      omega arith,
      rw e (mul-mod_left q (2 ^ j)),
      λ l jl nl. least' l (omega arith) (least l jl nl),
    )
