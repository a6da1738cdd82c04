-- ===== src/Http/Server/Serving/Sizes.antt =====
-- Content lengths and slices in src/ecosystem/http/server/mod.rs.
use uringy.Common.{
  ℕ, ◌+◌, ◌^◌, ◌<◌, ◌≡◌, refl, true, false, some, List, [], ◌∷◌, ◌++◌, returns, ◌==◌, length, arith,
  All, length-append, take-length_append, drop-length_append,
}
use uringy.Common.Text.{codes}
use uringy.Common.Decimal.{decimal, decimal_lem, digits_value, AreDigits, from_utf8-ascii}
use uringy.Http.Payload.{Text}
use uringy.Http.Server.{parse_usize, all_digits, find_lowercase, body_size, slice}

digits-all : (cs : Text) → AreDigits cs → all_digits cs ≡ true
digits-all [] v = refl
digits-all (c ∷ cs) (p, v) = ground (arith, digits-all cs v)

digits-ascii : (cs : Text) → AreDigits cs → All (λ b. b < 0x80) cs
digits-ascii [] v = tt
digits-ascii (c ∷ cs) (p, v) = (ground arith, digits-ascii cs v)

-- A decimal number in 64 bits is read.
parse_usize-decimal : (n : ℕ) → n < 2 ^ 64 → parse_usize (decimal n) ≡ some n
unfolding parse_usize
parse_usize-decimal n small =
    let (value, digits, (c, cs, e)) = decimal_lem n in
    let value' : digits_value 0 (c ∷ cs) ≡ n = rw e at value in
    let digits' : AreDigits (c ∷ cs) = rw e at digits in
    let no_sign : (c == b'+') ≡ false = ground (arith, digits'.0) in
    rw e (ground (arith, no_sign, digits-all (c ∷ cs) digits', value'))

-- The content length is what the first header of that name has.
pub body_size-decimal :
    (headers : List (Text × Text)) (n : ℕ)
    → find_lowercase (codes "content-length") headers ≡ some (decimal n)
    → n < 2 ^ 64
    → body_size headers ≡ n
unfolding body_size
body_size-decimal headers n there small =
    let (value, digits, first) = decimal_lem n in
    ground (
      arith,
      there,
      from_utf8-ascii (decimal n) (digits-ascii (decimal n) digits),
      parse_usize-decimal n small,
    )

pub slice-middle :
    (xs ys zs : Text) → slice (xs ++ (ys ++ zs)) (length xs) (length xs + length ys) ≡ returns ys
slice-middle xs ys zs = ground (
  arith,
  length-append xs (ys ++ zs),
  length-append ys zs,
  drop-length_append xs (ys ++ zs),
  take-length_append ys zs,
)
