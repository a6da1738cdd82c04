-- ===== src/CircularBuffer/Refine.antt =====
-- The circular buffer of src/circular_buffer.rs as a first-in first-out queue of bytes, read and
-- written through its double mapping.
use native.Mathlib.Nat.{mod-lt, mod-add-mod, mod-eq_of_lt, mod-eq-sub-mod, add-zero}
use native.Mathlib.Decide.{dec_lt}
use mathlib.Core.Path.{fun_ext, ap₂}
use uringy.Common.{
  ℕ, zero, suc, ◌+◌, ◌-◌, ◌%◌, ◌^◌, ◌≤◌, ◌<◌, ◌≡◌, refl, sym, ap, ◌∙◌, Bool, List, [], ◌∷◌, ◌++◌,
  some, returns, arith, length, drop, ◌==◌, if◌then◌else◌,
}
use uringy.Common.Bits.{bit_and_mask, pow_pos}
use uringy.CircularBuffer.Memory.{Translate, Files, update, read_slice, write_slice}
use uringy.CircularBuffer.{
  State, Slice, usize_mod, wrapping_add, p2_modulo, deref_data, deref_uninit, commit, consume,
}
use uringy.CircularBuffer.Window.{window, written, window-written, drop-window}

-- The length is a power of two, and the positions have not wrapped.
pub record IsValid (s : State) : Type 0 where
  pub log2_length : ℕ
  pub length_eq : s.length ≡ 2 ^ log2_length
  pub length_small : s.length < usize_mod
  pub ordered : s.head ≤ s.tail
  pub within : s.tail ≤ s.head + s.length
  pub tail_small : s.tail < usize_mod

-- Both copies of the file are mapped.
abbrev pub IsMapped : Translate → State → Type 0
IsMapped t s =
    (i : ℕ)
    → i < s.length
    → (t (s.pointer + i) ≡ some (s.file, i)) × (t (s.pointer + s.length + i) ≡ some (s.file, i))

-- The queue that a state stands for, oldest byte first.
abbrev pub contents : Files → State → List ℕ
contents files s = window (files s.file) s.length s.head (s.tail - s.head)

-- `p2_modulo` is the remainder, for a power of two.
pub p2_modulo-eq-mod : (n k : ℕ) → p2_modulo n (2 ^ k) ≡ n % 2 ^ k
unfolding p2_modulo
p2_modulo-eq-mod n k = bit_and_mask k n

pub length_pos : {s : State} → IsValid s → 0 < s.length
length_pos v = omega (arith, pow_pos v.log2_length)

index_of : {s : State} → IsValid s → (n : ℕ) → p2_modulo n s.length ≡ n % s.length
index_of {s} v n =
    ap (p2_modulo n) v.length_eq
    ∙ (p2_modulo-eq-mod n v.log2_length ∙ ap (λ m. n % m) (sym v.length_eq))

module _ (t : Translate) {s : State} (v : IsValid s) (m : IsMapped t s) where
  -- Position `h + k` is seen `k` addresses behind position `h`, through one of the copies.
  pub translate_at :
      (h k : ℕ)
      → k < s.length
      → t (s.pointer + h % s.length + k) ≡ some (s.file, (h + k) % s.length)
  translate_at h k small = elim (dec_lt (h % s.length + k) s.length) [
    | yes p ↦
        let there : s.pointer + h % s.length + k ≡ s.pointer + (h % s.length + k) = omega arith in
        let here : (h + k) % s.length ≡ h % s.length + k =
          sym (mod-add-mod h s.length k) ∙ mod-eq_of_lt p in
        rw (there, here) (m (h % s.length + k) p).0
    | no p ↦
        let low : h % s.length < s.length = mod-lt h (length_pos v) in
        let i : ℕ = h % s.length + k - s.length in
        let there : s.pointer + h % s.length + k ≡ s.pointer + s.length + i = omega arith in
        let here : (h + k) % s.length ≡ i =
          sym (mod-add-mod h s.length k)
          ∙ (mod-eq-sub-mod {n = h % s.length + k} {m = s.length} (omega arith)
              ∙ mod-eq_of_lt {n = i} {m = s.length} (omega arith)) in
        rw (there, here) (m i (omega arith)).1
  ]

  -- Reading `n` bytes, at most `length`, from where position `h` is.
  read_slice-window :
      (files : Files) (h k n : ℕ)
      → k + n ≤ s.length
      → read_slice t files (s.pointer + h % s.length + k) n
        ≡ some (window (files s.file) s.length (h + k) n)
  unfolding read_slice
  read_slice-window files h k zero p = refl
  read_slice-window files h k (suc n) p =
      let next : s.pointer + h % s.length + k + 1 ≡ s.pointer + h % s.length + (k + 1) =
        omega arith in
      let rest = read_slice-window files h (k + 1) n (omega arith) in
      let shift : h + (k + 1) ≡ h + k + 1 = omega arith in
      ground (arith, translate_at h k (omega arith), rest, next, shift)

  -- Writing bytes from where position `h` is.
  write_slice-written :
      (files : Files) (h k : ℕ) (bs : List ℕ)
      → k + length bs ≤ s.length
      → (files' : Files) × (write_slice t files (s.pointer + h % s.length + k) bs ≡ some files')
        × (files' s.file ≡ written (files s.file) s.length (h + k) bs)
  unfolding write_slice
  write_slice-written files h k [] p = (files, refl, refl)
  write_slice-written files h k (b ∷ bs) p =
      let next : s.pointer + h % s.length + k + 1 ≡ s.pointer + h % s.length + (k + 1) =
        omega arith in
      let files1 : Files = update files s.file ((h + k) % s.length) b in
      let (files', wrote, eq) = write_slice-written files1 h (k + 1) bs (omega arith) in
      let shift : h + (k + 1) ≡ h + k + 1 = omega arith in
      let same : files1 s.file ≡ (λ i. if i == (h + k) % s.length then b else files s.file i) =
        fun_ext (λ i. ground arith) in
      (files', ground (arith, translate_at h k (omega arith), wrote, next), rw (← shift, ← same) eq)

-- Reading the data slice gives the whole queue, also where it goes round the end of the file.
pub deref_data-contents :
    (checks : Bool) (t : Translate) (files : Files) {s : State}
    → IsValid s
    → IsMapped t s
    → (d : Slice) × (deref_data checks s ≡ returns d)
      × (read_slice t files d.address d.count ≡ some (contents files s))
unfolding deref_data
deref_data-contents checks t files {s} v m = (
  record { address = s.pointer + p2_modulo s.head s.length; count = s.tail - s.head },
  ground arith,
  rw (index_of v s.head, ← add-zero (s.pointer + s.head % s.length))
      (read_slice-window t v m files s.head 0 (s.tail - s.head) (omega arith)
        ∙ ap (λ h. some (window (files s.file) s.length h (s.tail - s.head))) (add-zero s.head)),
)

-- Writing into the free slice and committing as many bytes appends them to the queue. This holds
-- while the tail position stays below 2^64.
pub write-commit-contents :
    (checks : Bool) (t : Translate) (files : Files) {s : State} (bs : List ℕ)
    → IsValid s
    → IsMapped t s
    → length bs + (s.tail - s.head) ≤ s.length
    → s.tail + length bs < usize_mod
    → (d : Slice) × (files' : Files) × (s' : State) × (deref_uninit checks s ≡ returns d)
      × (length bs ≤ d.count)
      × (write_slice t files d.address bs ≡ some files')
      × (commit checks s (length bs) ≡ returns s')
      × (contents files' s' ≡ contents files s ++ bs)
      × IsValid s'
unfolding deref_uninit commit
write-commit-contents checks t files {s} bs v m room small =
    let n : ℕ = s.tail - s.head in
    let k : ℕ = length bs in
    let s' : State = record s { tail = wrapping_add s.tail k } in
    let (files', wrote, eq) = write_slice-written t v m files s.tail 0 bs (omega arith) in
    let tail' : wrapping_add s.tail k ≡ s.tail + k = mod-eq_of_lt small in
    let grown : s.tail + k - s.head ≡ n + k = omega arith in
    let start : s.tail + 0 ≡ s.tail = omega arith in
    let after : files' s.file ≡ written (files s.file) s.length s.tail bs =
      eq ∙ ap (λ h. written (files s.file) s.length h bs) start in
    (
      record { address = s.pointer + p2_modulo s.tail s.length; count = s.length - n },
      files',
      s',
      ground arith,
      omega arith,
      rw (index_of v s.tail, ← add-zero (s.pointer + s.tail % s.length)) wrote,
      ground arith,
      ap₂ (λ f j. window f s.length s.head j) after (ap (λ j. j - s.head) tail' ∙ grown)
          ∙ window-written (files s.file) s.length s.head n s.tail bs (omega arith) (omega arith),
      record {
        log2_length = v.log2_length;
        length_eq = v.length_eq;
        length_small = v.length_small;
        ordered = omega arith;
        within = omega arith;
        tail_small = omega arith;
      },
    )

-- Consuming drops that many of the oldest bytes.
pub consume-contents :
    (files : Files) {s : State} (n : ℕ)
    → IsValid s
    → n ≤ s.tail - s.head
    → ((consume s n).1 ≡ returns tt)
      × (contents files (consume s n).0 ≡ drop n (contents files s))
      × IsValid (consume s n).0
unfolding consume
consume-contents files {s} n v p =
    let head' : wrapping_add s.head n ≡ s.head + n = mod-eq_of_lt (omega arith) in
    let left : s.tail - (s.head + n) ≡ s.tail - s.head - n = omega arith in
    (
      ground arith,
      rw (head', left, drop-window (files s.file) s.length s.head (s.tail - s.head) n p),
      record {
        log2_length = v.log2_length;
        length_eq = v.length_eq;
        length_small = v.length_small;
        ordered = omega arith;
        within = omega arith;
        tail_small = v.tail_small;
      },
    )
