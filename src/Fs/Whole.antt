-- ===== src/Fs/Whole.antt =====
-- The functions of src/fs.rs on whole files. What the standard library does with an open file, its loops
-- over `read` and `write`, is a parameter of each; so is its `copy`.
use uringy.Common.{
  ℕ, ◌≡◌, Bool, false, List, Result, ok, err, returns, panics, ◌>>=◌, contains, arith,
}
use uringy.Common.Int.{pos}
use uringy.Errors.{IoError, custom, from_io_error}
use uringy.Runtime.Calls.{classify}
use uringy.Kernel.{open_at, Kernel, call}
use uringy.Fs.{
  OpenOptions, open_flags, file_open_options, file_create_options, get_access_mode,
  get_creation_mode, access_mode, creation_mode, is_refused, new_options, with_read, o_cloexec,
}
use uringy.Fs.Calls.{Outcome, drop_file, open_file}

module _ (K : Kernel) where
  -- `map_err(from_io_error)?` at the end of a function that has the file: the file is dropped.
  abbrev pub at_end : {A : Type 0} → Bool → ℕ → Result A IoError × K.World → Outcome K A
  at_end is_cancelled fd (ok a, w) = returns (ok a, drop_file K is_cancelled fd w)
  at_end is_cancelled fd (err e, w) = do
    e' ← from_io_error e
    returns (err e', drop_file K is_cancelled fd w)

  -- Opening a file, and all that is done with it.
  abbrev pub with_file :
      {A : Type 0}
      → Bool
      → List ℕ
      → OpenOptions
      → (ℕ → K.World → Result A IoError × K.World)
      → K.World
      → Outcome K A
  with_file is_cancelled path options use_file w = do
    (opened, w1) ← open_file K is_cancelled path options w
    elim opened [ err e ↦ returns (err e, w1) | ok fd ↦ at_end is_cancelled fd (use_file fd w1) ]

  -- `read`, `read_to_string` and `write`
  unfoldable pub path_read :
      (ℕ → K.World → Result (List ℕ) IoError × K.World)
      → Bool
      → List ℕ
      → K.World
      → Outcome K (List ℕ)
  unfolding open_file drop_file file_open_options from_io_error
  path_read read_to_end is_cancelled path w =
      with_file is_cancelled path file_open_options read_to_end w

  unfoldable pub path_read_to_string :
      (ℕ → K.World → Result (List ℕ) IoError × K.World)
      → Bool
      → List ℕ
      → K.World
      → Outcome K (List ℕ)
  unfolding open_file drop_file file_open_options from_io_error
  path_read_to_string std_read_to_string is_cancelled path w =
      with_file is_cancelled path file_open_options std_read_to_string w

  unfoldable pub path_write :
      (List ℕ → ℕ → K.World → Result (Unit {0}) IoError × K.World)
      → Bool
      → List ℕ
      → List ℕ
      → K.World
      → Outcome K (Unit {0})
  unfolding open_file drop_file file_create_options from_io_error
  path_write write_all is_cancelled path contents w =
      with_file is_cancelled path file_create_options (write_all contents) w

  -- `copy`, which opens no file itself
  unfoldable pub path_copy :
      (List ℕ → List ℕ → K.World → Result ℕ IoError × K.World)
      → List ℕ
      → List ℕ
      → K.World
      → Outcome K ℕ
  unfolding from_io_error
  path_copy std_copy from to w = do
    let (result, w1) = std_copy from to w
    elim result [
      | ok n ↦ returns (ok n, w1)
      | err e ↦ do e' ← from_io_error e; returns (err e', w1)
    ]

  -- Reading a file to a string panics if the standard library refuses its bytes with an error that has
  -- no OS error, as it does when they are not UTF-8.
  pub path_read_to_string-panics :
      (std_read_to_string : ℕ → K.World → Result (List ℕ) IoError × K.World) (path : List ℕ)
      (w w1 w2 : K.World) (fd : ℕ)
      → contains path 0 ≡ false
      → K.operate (open_at path o_cloexec 0x1B6) w ≡ (pos fd, w1)
      → std_read_to_string fd w1 ≡ (err custom, w2)
      → path_read_to_string std_read_to_string false path w ≡ panics
  unfolding path_read_to_string open_file drop_file call open_flags file_open_options
      get_access_mode get_creation_mode access_mode creation_mode is_refused new_options with_read
      classify from_io_error
  path_read_to_string-panics std_read_to_string path w w1 w2 fd clean opened refused =
      ground (arith, clean, opened, refused)
