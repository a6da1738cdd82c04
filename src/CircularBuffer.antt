-- ===== src/CircularBuffer.antt =====
-- src/circular_buffer.rs: a byte queue in a buffer that is mapped twice in a row, so that its data
-- and its free space are always one slice. `usize` has 64 bits. Plain `-` on `usize` panics on
-- underflow where the build has overflow checks, and wraps where it has not: both are modelled.
pub mod Memory
pub mod Window
pub mod Refine
pub mod Length
pub mod Mapping
pub mod Wrap
pub mod Commit
mod Tests
use Prim.Native.Nat.{bit_and}
use uringy.Common.{
  ℕ, zero, suc, ◌+◌, ◌-◌, ◌*◌, ◌%◌, ◌^◌, Bool, true, false, Option, none, some, List, [], ◌∷◌, ◌++◌,
  Result, ok, err, Panics, returns, panics, ◌>>=◌, ◌>>◌, assert, leb, ltb, ◌==◌, if◌then◌else◌,
}
use Memory.{
  Flag, mfd_cloexec, mfd_hugetlb, map_private, map_anonymous, map_hugetlb, map_shared, map_fixed,
  prot_none, prot_read, prot_write, IoError, invalid_input, os_error, Kernel,
}

-- `State`. `file` is the descriptor of `_file`.
pub record State : Type 0 where
  pub file : ℕ
  pub pointer : ℕ
  pub head : ℕ
  pub tail : ℕ
  pub length : ℕ

abbrev pub usize_mod : ℕ
usize_mod = 2 ^ 64

-- `usize::overflowing_add(..).0`
abbrev pub wrapping_add : ℕ → ℕ → ℕ
wrapping_add a b = (a + b) % usize_mod

-- `a - b` on `usize`, in a build with or without overflow checks.
abbrev pub sub_usize : Bool → ℕ → ℕ → Panics ℕ
sub_usize checks a b =
    if leb b a
    then returns (a - b)
    else if checks
    then panics
    else returns ((a + usize_mod - b) % usize_mod)

-- `p2_modulo`
pub p2_modulo : ℕ → ℕ → ℕ
p2_modulo n m = bit_and n (m - 1)

-- A slice: its address and its length.
pub record Slice : Type 0 where
  pub address : ℕ
  pub count : ℕ

module _ (checks : Bool) where
  -- `State::data_len`, which `Data::len` returns
  pub data_len : State → Panics ℕ
  data_len s = sub_usize checks s.tail s.head

  -- `State::uninit_len`, which `Uninit::len` returns
  pub uninit_len : State → Panics ℕ
  unfolding data_len
  uninit_len s = do n ← data_len s; sub_usize checks s.length n

  -- `Data::is_empty`
  pub data_is_empty : State → Panics Bool
  unfolding data_len
  data_is_empty s = do n ← data_len s; returns (n == 0)

  -- `Uninit::is_empty`
  pub uninit_is_empty : State → Panics Bool
  unfolding uninit_len
  uninit_is_empty s = do n ← uninit_len s; returns (n == 0)

  -- `Deref` and `DerefMut` for `Data`
  pub deref_data : State → Panics Slice
  unfolding data_len
  deref_data s = do
    n ← data_len s
    returns (record { address = s.pointer + p2_modulo s.head s.length; count = n })

  -- `Deref` and `DerefMut` for `Uninit`
  pub deref_uninit : State → Panics Slice
  unfolding uninit_len
  deref_uninit s = do
    n ← uninit_len s
    returns (record { address = s.pointer + p2_modulo s.tail s.length; count = n })

  -- `Uninit::commit`
  pub commit : State → ℕ → Panics State
  unfolding uninit_len
  commit s capacity = do
    n ← uninit_len s
    assert (leb capacity n)
    returns (record s { tail = wrapping_add s.tail capacity })

-- `Data::consume`. The assertion comes after the assignment, so the state has changed also when it
-- fails.
pub consume : State → ℕ → State × Panics (Unit {0})
consume s capacity =
    let s' : State = record s { head = wrapping_add s.head capacity } in
    (s', assert (leb s'.head s'.tail))

-- `usize::checked_next_multiple_of`
pub next_multiple_of : ℕ → ℕ → Option ℕ
next_multiple_of n m =
    if m == 0
    then none
    else if n % m == 0
    then some n
    else if ltb (n + (m - n % m)) usize_mod
    then some (n + (m - n % m))
    else none

-- The least power of two from `p` on that is at least `n`, in `fuel` doublings of `p`.
pub power_from : ℕ → ℕ → ℕ → Option ℕ
power_from zero p n = none
power_from (suc fuel) p n = let rest = power_from fuel (2 * p) n in if leb n p then some p else rest

-- `usize::checked_next_power_of_two`: the powers are 2^0 up to 2^63.
pub next_power_of_two : ℕ → Option ℕ
unfolding power_from
next_power_of_two n = power_from 64 1 n

abbrev or_invalid : Option ℕ → Result ℕ IoError
or_invalid none = err invalid_input
or_invalid (some n) = ok n

abbrev and_then : Option ℕ → (ℕ → Option ℕ) → Option ℕ
and_then none f = none
and_then (some n) f = f n

-- `calculate_length`; `sysconf` is the page size that the operating system reports.
pub calculate_length : Bool → ℕ → ℕ → Result ℕ IoError
unfolding next_multiple_of next_power_of_two
calculate_length huge_pages sysconf length =
    let page_size = if huge_pages then 2 * 1024 * 1024 else sysconf in
    or_invalid (and_then (next_multiple_of length page_size) next_power_of_two)

-- The flags of `file_mapping`.
abbrev pub file_flags : Bool → List Flag
file_flags huge_pages = map_shared ∷ map_fixed ∷ (if huge_pages then map_hugetlb ∷ [] else [])

module _ (K : Kernel) (huge_pages : Bool) where
  open K use {Space, page_size, memfd_create, close, set_len, mmap_anonymous, mmap_file, munmap}

  -- A function that calls the kernel and returns an `io::Result`.
  abbrev pub Io : Type 0 → Type 0
  Io A = Space → Result A IoError × Space

  abbrev pub bind : {A B : Type 0} → Io A → (A → Io B) → Io B
  bind m f s = let (r, s') = m s in elim r [ ok a ↦ f a s' | err e ↦ (err e, s') ]

  -- `io::Error::last_os_error` on a failed call
  abbrev pub or_last_os_error : {A : Type 0} → (Space → Result A ℕ × Space) → Io A
  or_last_os_error m s =
      let (r, s') = m s in elim r [ ok a ↦ (ok a, s') | err e ↦ (err (os_error e), s') ]

  -- `?` on a value that is there.
  abbrev pub pure : {A : Type 0} → Result A IoError → Io A
  pure r s = (r, s)

  -- A file that goes out of scope on an early return is closed.
  abbrev pub closing : {A : Type 0} → ℕ → Io A → Io A
  closing file m s =
      let (r, s') = m s in elim r [ ok a ↦ (ok a, s') | err e ↦ (err e, close file s') ]

  -- `anonymous_file`
  pub anonymous_file : Io ℕ
  anonymous_file =
      or_last_os_error (memfd_create (mfd_cloexec ∷ (if huge_pages then mfd_hugetlb ∷ [] else [])))

  -- `anonymous_mapping`
  pub anonymous_mapping : ℕ → Io ℕ
  anonymous_mapping size = or_last_os_error (
      mmap_anonymous size (prot_none ∷ [])
        (map_private ∷ map_anonymous ∷ (if huge_pages then map_hugetlb ∷ [] else [])))

  -- `file_mapping`
  pub file_mapping : ℕ → ℕ → ℕ → Io (Unit {0})
  file_mapping file pointer size =
      or_last_os_error
        (mmap_file file pointer size (prot_read ∷ prot_write ∷ []) (file_flags huge_pages))

  -- `remove_mapping`
  pub remove_mapping : ℕ → ℕ → Io (Unit {0})
  remove_mapping pointer size = or_last_os_error (munmap pointer size)

  -- `circular_buffer` from the two file mappings on
  pub map_twice : ℕ → ℕ → ℕ → Io State
  unfolding file_mapping
  map_twice file n pointer = bind (file_mapping file pointer n) λ _.
      bind (file_mapping file (pointer + n) n)
        λ _. pure (ok (record { file = file; pointer = pointer; head = 0; tail = 0; length = n }))

  -- `circular_buffer` from the resizing of the file on. The product wraps, as it does without overflow
  -- checks; with them, a length of 2^63 panics here.
  pub set_up : ℕ → ℕ → Io State
  unfolding anonymous_mapping map_twice
  set_up n file = closing file (
      bind (or_last_os_error (set_len file n))
        λ _. bind (anonymous_mapping ((2 * n) % usize_mod)) (map_twice file n))

  -- `circular_buffer`. Both halves share the state that is returned.
  pub circular_buffer : ℕ → Io State
  unfolding calculate_length anonymous_file set_up
  circular_buffer length =
      bind (pure (calculate_length huge_pages page_size length)) λ n. bind anonymous_file (set_up n)

  -- `Drop for State`: three calls whose results are ignored, and then the file is closed. The product
  -- wraps as above.
  pub drop_state : State → Space → Space
  unfolding remove_mapping
  drop_state s sp =
      let sp1 = (remove_mapping s.pointer ((2 * s.length) % usize_mod) sp).1 in
      let sp2 = (remove_mapping s.pointer s.length sp1).1 in
      let sp3 = (remove_mapping (s.pointer + s.length) s.length sp2).1 in close s.file sp3
