-- ===== src/CircularBuffer/Window.antt =====
-- The bytes of a range of positions in a cyclic file, for the circular buffer of
-- src/circular_buffer.rs.
use native.Mathlib.Decide.{dec_le}
use mathlib.Core.Path.{ap₂}
use native.Mathlib.Nat.{div-add-mod, mul-le-mul_left, zero-add, add-zero}
use uringy.Common.{
  ℕ, zero, suc, ◌+◌, ◌-◌, ◌/◌, ◌%◌, ◌≤◌, ◌<◌, ◌≡◌, refl, ap, ◌∙◌, ◌≢◌, List, [], ◌∷◌, ◌++◌, arith,
  length, drop, ◌==◌, if◌then◌else◌,
}

-- The `n` bytes from position `h` on, where position `p` is byte `p % len` of the file.
abbrev pub window : (ℕ → ℕ) → ℕ → ℕ → ℕ → List ℕ
window f len h zero = []
window f len h (suc n) = f (h % len) ∷ window f len (h + 1) n

pub length-window : (f : ℕ → ℕ) (len h n : ℕ) → length (window f len h n) ≡ n
length-window f len h zero = refl
length-window f len h (suc n) = ap suc (length-window f len (h + 1) n)

-- Two positions closer than `len` are different bytes.
pub mod-ne : (len a b : ℕ) → a < b → b < a + len → a % len ≢ b % len
mod-ne len a b lo hi e = elim (dec_le (b / len) (a / len)) [
  | yes p ↦ omega (arith, div-add-mod a len, div-add-mod b len, mul-le-mul_left len p)
  | no p ↦ omega (arith, div-add-mod a len, div-add-mod b len, mul-le-mul_left len (lt_of_not_le p))
]
  where
    lt_of_not_le : ¬ (b / len ≤ a / len) → suc (a / len) ≤ b / len
    lt_of_not_le p = omega arith

-- What a list of bytes written from position `t` on makes of a file.
abbrev pub written : (ℕ → ℕ) → ℕ → ℕ → List ℕ → ℕ → ℕ
written f len t [] = f
written f len t (b ∷ bs) = written (λ i. if i == t % len then b else f i) len (t + 1) bs

-- Writing one byte outside a window.
window-put_off :
    (f : ℕ → ℕ) (len h n t b : ℕ)
    → h + n ≤ t
    → t < h + len
    → window (λ i. if i == t % len then b else f i) len h n ≡ window f len h n
window-put_off f len h zero t b p q = refl
window-put_off f len h (suc n) t b p q = ground (
  arith,
  mod-ne len h t (omega arith) q,
  window-put_off f len (h + 1) n t b (omega arith) (omega arith),
)

-- Bytes are as before at a window that the write does not reach.
pub window-written_off :
    (f : ℕ → ℕ) (len h n t : ℕ) (bs : List ℕ)
    → h + n ≤ t
    → t + length bs ≤ h + len
    → window (written f len t bs) len h n ≡ window f len h n
window-written_off f len h n t [] p q = refl
window-written_off f len h n t (b ∷ bs) p q =
    window-written_off (λ i. if i == t % len then b else f i) len h n (t + 1) bs (omega arith)
      (omega arith)
    ∙ window-put_off f len h n t b p (omega arith)

-- The window of the bytes written.
pub window-written_on :
    (f : ℕ → ℕ) (len t : ℕ) (bs : List ℕ)
    → length bs ≤ len
    → window (written f len t bs) len t (length bs) ≡ bs
window-written_on f len t [] p = refl
window-written_on f len t (b ∷ bs) p =
    let f' : ℕ → ℕ = λ i. if i == t % len then b else f i in
    let first : window (written f' len (t + 1) bs) len t 1 ≡ window f' len t 1 =
      window-written_off f' len t 1 (t + 1) bs (omega arith) (omega arith) in
    let rest : window (written f' len (t + 1) bs) len (t + 1) (length bs) ≡ bs =
      window-written_on f' len (t + 1) bs (omega arith) in
    ground (arith, first, rest)

pub window-add :
    (f : ℕ → ℕ) (len h n m : ℕ)
    → window f len h (n + m) ≡ window f len h n ++ window f len (h + n) m
window-add f len h zero m = rw (zero-add, add-zero)
window-add f len h (suc n) m =
    let shift : h + 1 + n ≡ h + suc n = omega arith in
    let more : suc n + m ≡ suc (n + m) = omega arith in
    rw (more, window-add f len (h + 1) n m, shift)

-- Writing right behind a window, into a file that has room for both, appends to it.
pub window-written :
    (f : ℕ → ℕ) (len h n t : ℕ) (bs : List ℕ)
    → h + n ≡ t
    → n + length bs ≤ len
    → window (written f len t bs) len h (n + length bs) ≡ window f len h n ++ bs
window-written f len h n t bs e p =
    window-add (written f len t bs) len h n (length bs)
    ∙ rw (e) (
        ap₂ ◌++◌ (window-written_off f len h n t bs (omega arith) (omega arith))
          (window-written_on f len t bs (omega arith)))

pub drop-window :
    (f : ℕ → ℕ) (len h n k : ℕ) → k ≤ n → drop k (window f len h n) ≡ window f len (h + k) (n - k)
drop-window f len h n zero p = let same : n - 0 ≡ n = omega arith in rw (add-zero, same)
drop-window f len h zero (suc k) p = absurd (omega arith)
drop-window f len h (suc n) (suc k) p =
    let shift : h + 1 + k ≡ h + suc k = omega arith in
    let less : suc n - suc k ≡ n - k = omega arith in
    rw (less, ← shift, drop-window f len (h + 1) n k (omega arith))
