-- ===== src/Fs/Calls.antt =====
-- The operations of a `File` in src/fs.rs, each a system call or a call of the standard library.
use uringy.Common.{
  ℕ, Bool, true, false, not, List, Result, ok, err, Panics, returns, ◌>>=◌, ◌>>◌, assert, take,
  length, contains, ◌==◌,
}
use uringy.Errors.{Error, original, IoError, to_io_error}
use uringy.Runtime.Calls.{IoResult}
use uringy.Kernel.{
  fsync, write, read, open_at, unlink_at, close, Kernel, call, borrowed, to_io_result,
}
use uringy.Fs.{OpenOptions, open_flags, transfer_len, file_open_options}

module _ (K : Kernel) where
  -- What an operation gives: its result, or a panic, and the world that it leaves.
  abbrev pub Outcome : Type 0 → Type 0
  Outcome A = Panics (Result A (Error IoError) × K.World)

  -- `assert_eq!(result, 0)` on the result of a system call that gave no error
  abbrev pub expect_zero : IoResult × K.World → Outcome (Unit {0})
  expect_zero (ok n, w) = assert (n == 0) >> returns (ok tt, w)
  expect_zero (err e, w) = returns (err e, w)

  -- `sync_all` and `sync_data`
  unfoldable pub sync_all : Bool → ℕ → K.World → Outcome (Unit {0})
  unfolding call
  sync_all is_cancelled fd w = expect_zero (call K is_cancelled (fsync fd false) w)

  unfoldable pub sync_data : Bool → ℕ → K.World → Outcome (Unit {0})
  unfolding call
  sync_data is_cancelled fd w = expect_zero (call K is_cancelled (fsync fd true) w)

  -- `set_len`, `metadata` and `set_permissions`, from the operation of the standard library on the file
  unfoldable pub set_len :
      (ℕ → ℕ → K.World → Result (Unit {0}) IoError × K.World)
      → ℕ
      → ℕ
      → K.World
      → Result (Unit {0}) (Error IoError) × K.World
  set_len std_set_len size fd w = borrowed K fd (std_set_len fd size w)

  unfoldable pub metadata :
      {Metadata : Type 0}
      → (ℕ → K.World → Result Metadata IoError × K.World)
      → ℕ
      → K.World
      → Result Metadata (Error IoError) × K.World
  metadata std_metadata fd w = borrowed K fd (std_metadata fd w)

  unfoldable pub set_permissions :
      {Permissions : Type 0}
      → (ℕ → Permissions → K.World → Result (Unit {0}) IoError × K.World)
      → Permissions
      → ℕ
      → K.World
      → Result (Unit {0}) (Error IoError) × K.World
  set_permissions std_set_permissions permissions fd w =
      borrowed K fd (std_set_permissions fd permissions w)

  -- `Drop for File`
  unfoldable pub drop_file : Bool → ℕ → K.World → K.World
  unfolding call
  drop_file is_cancelled fd w = (call K is_cancelled (close fd) w).1

  -- `io::Write for File` and `io::Read for File`
  unfoldable pub write_file : Bool → List ℕ → ℕ → K.World → Result ℕ IoError × K.World
  unfolding call transfer_len to_io_error
  write_file is_cancelled buf fd w =
      let called : IoResult × K.World =
        call K is_cancelled (write fd (take (transfer_len (length buf)) buf)) w in
      (to_io_result called.0, called.1)

  unfoldable pub read_file : Bool → ℕ → ℕ → K.World → Result ℕ IoError × K.World
  unfolding call transfer_len to_io_error
  read_file is_cancelled buf_len fd w =
      let called : IoResult × K.World = call K is_cancelled (read fd (transfer_len buf_len)) w in
      (to_io_result called.0, called.1)

  -- `OpenOptions::open`. A path with a zero byte is no `CString`.
  unfoldable pub open_file : Bool → List ℕ → OpenOptions → K.World → Outcome ℕ
  unfolding call open_flags
  open_file is_cancelled path options w =
      assert (not (contains path 0)) >> (elim (open_flags options) [
        | err e ↦ returns (err (original e), w)
        | ok flags ↦ returns (call K is_cancelled (open_at path flags options.mode) w)
      ])

  -- `remove_file`
  unfoldable pub remove_file : Bool → List ℕ → K.World → Outcome (Unit {0})
  unfolding call
  remove_file is_cancelled path w =
      assert (not (contains path 0)) >> expect_zero (call K is_cancelled (unlink_at path) w)

  -- The free function `metadata`: the file is dropped at the end.
  unfoldable pub path_metadata :
      {Metadata : Type 0}
      → (ℕ → K.World → Result Metadata IoError × K.World)
      → Bool
      → List ℕ
      → K.World
      → Outcome Metadata
  unfolding open_file metadata drop_file file_open_options
  path_metadata std_metadata is_cancelled path w = do
    (opened, w1) ← open_file is_cancelled path file_open_options w
    elim opened [
      | err e ↦ returns (err e, w1)
      | ok fd ↦
          (let found = metadata std_metadata fd w1 in
            returns (found.0, drop_file is_cancelled fd (found.1)))
    ]
