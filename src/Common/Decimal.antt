-- ===== src/Common/Decimal.antt =====
-- Decimal numbers as `Display` prints them, and UTF-8 as `str::from_utf8` checks it.
use native.Mathlib.Decide.{dec_lt}
use uringy.Common.{
  ℕ, zero, suc, ◌+◌, ◌-◌, ◌*◌, ◌/◌, ◌%◌, ◌<◌, ◌≡◌, refl, Bool, true, false, ◌&&◌, List, [], ◌∷◌,
  ◌++◌, Option, none, some, arith, ltb, leb, ◌==◌, if◌then◌else◌, All, All-append,
}

abbrev pub is_digit : ℕ → Bool
is_digit c = leb b'0' c && leb c b'9'

-- The number that a list of digits stands for, in front of which `acc` has been read.
abbrev pub digits_value : ℕ → List ℕ → ℕ
digits_value acc [] = acc
digits_value acc (c ∷ cs) = digits_value (acc * 10 + (c - b'0')) cs

decimal_from : ℕ → ℕ → List ℕ
decimal_from zero n = []
decimal_from (suc fuel) n =
    let rest = decimal_from fuel (n / 10) in
    if ltb n 10 then (b'0' + n) ∷ [] else rest ++ ((b'0' + n % 10) ∷ [])

-- `to_string` of an unsigned number
unfoldable pub decimal : ℕ → List ℕ
unfolding decimal_from
decimal n = decimal_from (suc n) n

abbrev pub AreDigits : List ℕ → Type 0
AreDigits cs = All (λ c. is_digit c ≡ true) cs

digits_value-append :
    (acc : ℕ) (xs : List ℕ) (c : ℕ)
    → digits_value acc (xs ++ (c ∷ [])) ≡ digits_value acc xs * 10 + (c - b'0')
digits_value-append acc [] c = refl
digits_value-append acc (x ∷ xs) c = digits_value-append (acc * 10 + (x - b'0')) xs c

decimal_from_lem :
    (fuel n : ℕ)
    → n < fuel
    → (digits_value 0 (decimal_from fuel n) ≡ n)
      × AreDigits (decimal_from fuel n)
      × ((c : ℕ) × (cs : List ℕ) × (decimal_from fuel n ≡ c ∷ cs))
unfolding decimal_from
decimal_from_lem zero n h = absurd (omega arith)
decimal_from_lem (suc fuel) n h = elim (dec_lt n 10) [
  | yes p ↦ (ground arith, ground arith, (b'0' + n, [], ground arith))
  | no p ↦
      let (value, digits, first) = decimal_from_lem fuel (n / 10) (omega arith) in
      let (c, cs, e) = first in
      let big : ltb n 10 ≡ false = ground arith in
      (
        rw big (
            omega
              (arith, digits_value-append 0 (decimal_from fuel (n / 10)) (b'0' + n % 10), value)),
        rw big (
            All-append (λ c. is_digit c ≡ true) (decimal_from fuel (n / 10)) ((b'0' + n % 10) ∷ [])
              digits (ground arith, tt)),
        (c, cs ++ ((b'0' + n % 10) ∷ []), rw (big, e)),
      )
]

-- A decimal number reads back as the number, is made of digits, and is not empty.
pub decimal_lem :
    (n : ℕ)
    → (digits_value 0 (decimal n) ≡ n)
      × AreDigits (decimal n)
      × ((c : ℕ) × (cs : List ℕ) × (decimal n ≡ c ∷ cs))
unfolding decimal
decimal_lem n = decimal_from_lem (suc n) n (omega arith)

-- What may follow a lead byte: the number of continuation bytes, and the range of the first of them.
abbrev lead_byte : ℕ → Option (ℕ × ℕ × ℕ)
lead_byte b =
    if ltb b 0x80
    then some (0, 0x80, 0xbf)
    else if leb 0xc2 b && leb b 0xdf
    then some (1, 0x80, 0xbf)
    else if b == 0xe0
    then some (2, 0xa0, 0xbf)
    else if b == 0xed
    then some (2, 0x80, 0x9f)
    else if leb 0xe1 b && leb b 0xef
    then some (2, 0x80, 0xbf)
    else if b == 0xf0
    then some (3, 0x90, 0xbf)
    else if leb 0xf1 b && leb b 0xf3
    then some (3, 0x80, 0xbf)
    else if b == 0xf4
    then some (3, 0x80, 0x8f)
    else none

utf8_from : ℕ → ℕ → ℕ → List ℕ → Bool
utf8_from zero lo hi [] = true
utf8_from (suc k) lo hi [] = false
utf8_from zero lo hi (b ∷ bs) = elim (lead_byte b) [
  | none ↦ false
  | some (k, lo', hi') ↦ utf8_from k lo' hi' bs
]
utf8_from (suc k) lo hi (b ∷ bs) = leb lo b && leb b hi && utf8_from k 0x80 0xbf bs

-- `str::from_utf8`: a text is its bytes.
unfoldable pub from_utf8 : List ℕ → Option (List ℕ)
unfolding utf8_from
from_utf8 bs = if utf8_from 0 0x80 0xbf bs then some bs else none

ascii_utf8 : (lo hi : ℕ) (bs : List ℕ) → All (λ b. b < 0x80) bs → utf8_from 0 lo hi bs ≡ true
unfolding utf8_from
ascii_utf8 lo hi [] h = refl
ascii_utf8 lo hi (b ∷ bs) (p, h) = ground (arith, ascii_utf8 0x80 0xbf bs h)

-- ASCII is UTF-8.
pub from_utf8-ascii : (bs : List ℕ) → All (λ b. b < 0x80) bs → from_utf8 bs ≡ some bs
unfolding from_utf8
from_utf8-ascii bs h = rw (ascii_utf8 0x80 0xbf bs h)
