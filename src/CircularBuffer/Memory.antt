-- ===== src/CircularBuffer/Memory.antt =====
-- What src/circular_buffer.rs uses of the operating system: memory files, mappings of them, and
-- loads and stores through the mappings. The kernel is a parameter with the documented behaviour of
-- mmap(2) as its laws.
use uringy.Common.{
  ℕ, zero, suc, ◌+◌, ◌%◌, ◌^◌, Elem, ◌≤◌, ◌<◌, ◌≡◌, ◌⊎◌, List, [], ◌∷◌, Option, none, some, Result,
  ok, ◌==◌, ◌&&◌, if◌then◌else◌,
}

-- The flags of libc that the source passes.
pub data Flag : Type 0 where
  mfd_cloexec mfd_hugetlb map_private map_anonymous map_hugetlb map_shared map_fixed : Flag
  prot_none prot_read prot_write : Flag

-- Errors of `std::io`: the source's own `InvalidInput`, or an errno of the operating system.
pub data IoError : Type 0 where
  invalid_input : IoError
  os_error : ℕ → IoError

-- Where an address leads: to a byte of a memory file.
abbrev pub Translate : Type 0
Translate = ℕ → Option (ℕ × ℕ)

-- A size is a number of whole pages of a mapping with these flags: huge pages have 2 MiB.
abbrev pub IsWhole : ℕ → List Flag → ℕ → Type 0
IsWhole page_size flags size =
    ((Elem map_hugetlb flags → ⊥) × (size % page_size ≡ 0))
    ⊎ (Elem map_hugetlb flags × (size % 2 ^ 21 ≡ 0))

-- An `err` is a return of -1 or MAP_FAILED, with the errno.
pub record Kernel : Type 1 where
  -- The process' open files and address space.
  pub Space : Type 0
  -- `sysconf(_SC_PAGESIZE)`
  pub page_size : ℕ
  pub memfd_create : List Flag → Space → Result ℕ ℕ × Space
  pub close : ℕ → Space → Space
  -- `ftruncate`, by `File::set_len`
  pub set_len : ℕ → ℕ → Space → Result (Unit {0}) ℕ × Space
  -- `mmap(NULL, size, prot, flags, -1, 0)`
  pub mmap_anonymous : ℕ → List Flag → List Flag → Space → Result ℕ ℕ × Space
  -- `mmap(pointer, size, prot, flags, fd, 0)`
  pub mmap_file : ℕ → ℕ → ℕ → List Flag → List Flag → Space → Result (Unit {0}) ℕ × Space
  pub munmap : ℕ → ℕ → Space → Result (Unit {0}) ℕ × Space
  pub translate : Space → Translate
  -- A mapping that is fixed and shared shows the file from offset 0 at its addresses.
  pub mmap_inside :
      (fd pointer size : ℕ) (prot flags : List Flag) (s s' : Space) (i : ℕ)
      → Elem map_fixed flags
      → Elem map_shared flags
      → mmap_file fd pointer size prot flags s ≡ (ok tt, s')
      → i < size
      → translate s' (pointer + i) ≡ some (fd, i)
  -- A mapping that is fixed, of whole pages, leaves the other addresses alone.
  pub mmap_outside :
      (fd pointer size : ℕ) (prot flags : List Flag) (s s' : Space) (a : ℕ)
      → Elem map_fixed flags
      → IsWhole page_size flags size
      → mmap_file fd pointer size prot flags s ≡ (ok tt, s')
      → (a < pointer) ⊎ (pointer + size ≤ a)
      → translate s' a ≡ translate s a

-- The bytes of the memory files.
abbrev pub Files : Type 0
Files = ℕ → ℕ → ℕ

-- `none` is a fault.
unfoldable pub load : Translate → Files → ℕ → Option ℕ
load t files a = elim (t a) [ none ↦ none | some (fd, i) ↦ some (files fd i) ]

abbrev pub update : Files → ℕ → ℕ → ℕ → Files
update files fd i b fd' i' = if (fd' == fd) && (i' == i) then b else files fd' i'

unfoldable pub store : Translate → Files → ℕ → ℕ → Option Files
store t files a b = elim (t a) [ none ↦ none | some (fd, i) ↦ some (update files fd i b) ]

-- Reading the slice of `n` bytes from address `a` on.
unfoldable pub read_slice : Translate → Files → ℕ → ℕ → Option (List ℕ)
unfolding load
read_slice t files a zero = some []
read_slice t files a (suc n) = elim (load t files a) [
  | none ↦ none
  | some b ↦ elim (read_slice t files (a + 1) n) [ none ↦ none | some bs ↦ some (b ∷ bs) ]
]

-- Writing bytes to the slice from address `a` on.
unfoldable pub write_slice : Translate → Files → ℕ → List ℕ → Option Files
unfolding store
write_slice t files a [] = some files
write_slice t files a (b ∷ bs) = elim (store t files a b) [
  | none ↦ none
  | some files' ↦ write_slice t files' (a + 1) bs
]
