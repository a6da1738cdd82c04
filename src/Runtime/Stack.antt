-- ===== src/Runtime/Stack.antt =====
-- src/runtime/stack.rs: stacks with guard pages, and the stacks that src/runtime/mod.rs drops with the
-- runtime. The calls of the operating system are parameters.
pub mod Guard
pub mod Pool
use uringy.Common.{
  ℕ, ◌+◌, ◌-◌, ◌*◌, ◌^◌, ◌<◌, ◌≤◌, ◌≡◌, ◌⊎◌, Bool, true, false, List, [], ◌∷◌, Result, ok, err,
  Panics, returns, panics, ◌>>=◌, ◌>>◌, assert, ltb, leb, ◌==◌, if◌then◌else◌,
}

-- What a program may do at an address.
pub data Access : Type 0 where
  unmapped protected read_write : Access

-- The address space of the process, with what `mmap`, `mprotect` and `munmap` document: a mapping is
-- made where nothing is mapped, a call changes its own range only, and one that fails changes nothing.
-- Errors are errnos.
pub record Memory : Type 1 where
  pub Space : Type 0
  -- `sysconf(_SC_PAGESIZE)`
  pub page_size : ℕ
  pub access : Space → ℕ → Access
  -- `mmap(NULL, length, PROT_READ | PROT_WRITE, MAP_PRIVATE | MAP_ANONYMOUS, -1, 0)`
  pub mmap : ℕ → Space → Result ℕ ℕ × Space
  -- `mprotect(pointer, length, PROT_NONE)`
  pub mprotect : ℕ → ℕ → Space → Result (Unit {0}) ℕ × Space
  pub munmap : ℕ → ℕ → Space → Result (Unit {0}) ℕ × Space
  pub mmap-fresh :
      (n p : ℕ) (s s' : Space) (a : ℕ)
      → mmap n s ≡ (ok p, s')
      → p ≤ a
      → a < p + n
      → (access s a ≡ unmapped) × (access s' a ≡ read_write)
  pub mmap-others :
      (n p : ℕ) (s s' : Space) (a : ℕ)
      → mmap n s ≡ (ok p, s')
      → (a < p) ⊎ (p + n ≤ a)
      → access s' a ≡ access s a
  pub mmap-fails :
      (n e : ℕ) (s s' : Space) (a : ℕ) → mmap n s ≡ (err e, s') → access s' a ≡ access s a
  pub mprotect-access :
      (p n : ℕ) (s s' : Space) (a : ℕ)
      → mprotect p n s ≡ (ok tt, s')
      → access s' a
        ≡ (if leb p a then (if ltb a (p + n) then protected else access s a) else access s a)
  pub mprotect-fails :
      (p n e : ℕ) (s s' : Space) (a : ℕ) → mprotect p n s ≡ (err e, s') → access s' a ≡ access s a
  pub munmap-access :
      (p n : ℕ) (s s' : Space) (a : ℕ)
      → munmap p n s ≡ (ok tt, s')
      → access s' a
        ≡ (if leb p a then (if ltb a (p + n) then unmapped else access s a) else access s a)

pub record Stack : Type 0 where
  pub pointer : ℕ
  pub length : ℕ

-- Arithmetic on `usize`, which panics when it overflows.
abbrev pub usize : ℕ → Panics ℕ
usize n = assert (ltb n (2 ^ 64)) >> returns n

-- `Stack::base`
unfoldable pub base : Stack → ℕ
base stack = stack.pointer + stack.length

module _ (M : Memory) where
  abbrev expect_unmapped : Result (Unit {0}) ℕ × M.Space → Panics M.Space
  expect_unmapped (ok u, s) = returns s
  expect_unmapped (err e, s) = panics

  -- `Drop for Stack`
  unfoldable pub drop_stack : Stack → M.Space → Panics M.Space
  drop_stack stack s = expect_unmapped (M.munmap stack.pointer stack.length s)

  -- The rest of `Stack::new`, when `mprotect` has come back. A stack that could not be guarded is
  -- dropped.
  unfoldable pub guarded : Stack → Result (Unit {0}) ℕ × M.Space → Panics (Result Stack ℕ × M.Space)
  unfolding drop_stack
  guarded stack (ok u, s) = returns (ok stack, s)
  guarded stack (err e, s) = do s' ← drop_stack stack s; returns (err e, s')

  unfoldable pub mapped : ℕ → ℕ → Result ℕ ℕ × M.Space → Panics (Result Stack ℕ × M.Space)
  unfolding guarded
  mapped guard_length length (ok pointer, s) =
      guarded (record { pointer = pointer; length = length }) (M.mprotect pointer guard_length s)
  mapped guard_length length (err e, s) = returns (err e, s)

  -- `Stack::new`
  unfoldable pub new_stack : ℕ → ℕ → M.Space → Panics (Result Stack ℕ × M.Space)
  unfolding mapped
  new_stack guard_pages usable_pages s = do
    length ← usize ((guard_pages + usable_pages) * M.page_size)
    mapped (guard_pages * M.page_size) length (M.mmap length s)

  -- The loop of `Drop for RuntimeState` over the pool.
  unfoldable pub drain_pool : ℕ → List ℕ → M.Space → Panics M.Space
  unfolding drop_stack
  drain_pool length [] s = returns s
  drain_pool length (stack_bottom ∷ pool) s = do
    s' ← drop_stack (record { pointer = stack_bottom - length; length = length }) s
    drain_pool length pool s'

  -- `Drop for RuntimeState`
  unfoldable pub drop_runtime : List ℕ → M.Space → Panics M.Space
  unfolding drain_pool
  drop_runtime stack_pool s = do
    length ← usize ((1 + 32) * M.page_size)
    drain_pool length stack_pool s
