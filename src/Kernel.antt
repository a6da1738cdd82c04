-- ===== src/Kernel.antt =====
-- The system calls of src/fs.rs and src/net/tcp.rs, as `runtime::syscall` looks to the code that calls
-- it. The kernel is a parameter: what it does with a submission queue entry, and with what result the
-- entry completes. A fiber that is cancelled submits nothing.
pub mod Small
use uringy.Common.{ℕ, ◌≡◌, Bool, true, false, List, Result, ok, err, ◌==◌, if◌then◌else◌}
use uringy.Common.Int.{ℤ}
use uringy.Errors.{Error, original, cancelled, IoError, to_io_error}
use uringy.Runtime.Calls.{IoResult, classify}

-- The entries that are built, with the operation code's arguments. A buffer that is written from is the
-- bytes that are offered.
pub data Sqe : Type 0 where
  fsync : ℕ → Bool → Sqe
  write : ℕ → List ℕ → Sqe
  read : ℕ → ℕ → Sqe
  open_at : List ℕ → ℕ → ℕ → Sqe
  unlink_at : List ℕ → Sqe
  send : ℕ → List ℕ → Sqe
  recv : ℕ → ℕ → Sqe
  accept : ℕ → ℕ → Sqe
  close : ℕ → Sqe

-- Which descriptors of the process are open.
abbrev pub Descriptors : Type 0
Descriptors = ℕ → Bool

abbrev pub closed : ℕ → Descriptors → Descriptors
closed fd open_ k = if k == fd then false else open_ k

-- The kernel, with what Linux documents of `close`: the descriptor is released, whatever the result.
pub record Kernel : Type 1 where
  pub World : Type 0
  pub operate : Sqe → World → ℤ × World
  pub descriptors : World → Descriptors
  -- The world without a descriptor, as the standard library's `drop` leaves it.
  pub without : ℕ → World → World
  pub descriptors-close :
      (fd : ℕ) (w : World) (k : ℕ)
      → descriptors ((operate (close fd) w).1) k ≡ closed fd (descriptors w) k
  pub descriptors-without :
      (fd : ℕ) (w : World) (k : ℕ) → descriptors (without fd w) k ≡ closed fd (descriptors w) k

module _ (K : Kernel) where
  -- `runtime::syscall` in a fiber that is cancelled or not
  unfoldable pub call : Bool → Sqe → K.World → IoResult × K.World
  unfolding classify
  call true sqe w = (err cancelled, w)
  call false sqe w = (classify ((K.operate sqe w).0), (K.operate sqe w).1)

  -- A file or socket of the standard library made of a descriptor that something else owns, when an
  -- operation on it has come back. If it failed, the question mark drops it, which closes the
  -- descriptor; else it is forgotten.
  abbrev pub borrowed :
      {A : Type 0} → ℕ → Result A IoError × K.World → Result A (Error IoError) × K.World
  borrowed fd (ok a, w) = (ok a, w)
  borrowed fd (err e, w) = (err (original e), K.without fd w)

-- The question mark after a system call in a function of `std::io`.
abbrev pub to_io_result : IoResult → Result ℕ IoError
to_io_result (ok n) = ok n
to_io_result (err e) = err (to_io_error e)
