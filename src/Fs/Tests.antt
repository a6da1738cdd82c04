-- ===== src/Fs/Tests.antt =====
-- Runs of src/fs.rs.
use uringy.Common.{
  ℕ, [], ◌∷◌, List, returns, panics, ◌+◌, ◌*◌, ◌^◌, ◌≤◌, ◌≡◌, refl, ◌≢◌, true, false, Result, ok,
  err, arith,
}
use uringy.Errors.{Error, IoError, raw_os, custom}
use uringy.Kernel.{Descriptors, open_at}
use uringy.Kernel.Small.{small, standard}
use uringy.Fs.Calls.{path_metadata}
use uringy.Fs.Whole.{path_read_to_string, path_read_to_string-panics}
use uringy.Fs.Descriptors.{path_metadata-closes}
use uringy.Fs.{
  o_cloexec, OpenOptions, new_options, file_create_options, open_flags, get_access_mode,
  get_creation_mode, access_mode, creation_mode, is_refused, einval, transfer_len,
}
use uringy.Fs.Opening.{
  open_flags-append, open_flags-create_new, open_flags-needs_write, transfer_len_lem,
}

abbrev reading : OpenOptions
reading = record {
  read = true;
  write = false;
  append = false;
  truncate = false;
  create = true;
  create_new = false;
  custom_flags = 0;
  mode = 0x1B6;
}

-- `O_CLOEXEC | O_WRONLY | O_CREAT | O_TRUNC`
create_test : open_flags file_create_options ≡ ok 0x80241
unfolding open_flags get_access_mode get_creation_mode access_mode is_refused creation_mode
    file_create_options new_options
create_test = refl

open_flags-append_test :
    open_flags (record reading { append = true; write = true })
    ≡ open_flags (record reading { append = true; write = false })
open_flags-append_test = open_flags-append reading true

open_flags-create_new_test :
    open_flags (record reading { create_new = true; create = true; truncate = true })
    ≡ open_flags (record reading { create_new = true; create = false; truncate = false })
open_flags-create_new_test = open_flags-create_new reading true true

open_flags-needs_write_test : open_flags reading ≡ err (raw_os einval)
open_flags-needs_write_test = open_flags-needs_write reading refl refl refl

transfer_len_example :
    (transfer_len (3 * 2 ^ 32 + 5) ≡ 5) × (transfer_len (3 * 2 ^ 32 + 5) ≤ 3 * 2 ^ 32 + 5)
transfer_len_example = transfer_len_lem 5 3 (omega arith)

abbrev no_metadata : ℕ → Descriptors → Result ℕ IoError × Descriptors
no_metadata fd w = (err (raw_os 5), w)

path_metadata-closes_example :
    (result : Result ℕ (Error IoError)) × (w2 : Descriptors) × (path_metadata small no_metadata
        false
        (47 ∷ 97 ∷ [])
        standard
      ≡ returns (result, w2))
    × (w2 9 ≡ false)
    × ((k : ℕ)
        → k ≢ 9
        → w2 k
          ≡ (no_metadata 9 ((small.operate (open_at (47 ∷ 97 ∷ []) o_cloexec 0x1B6) standard).1)).1
              k)
path_metadata-closes_example =
    path_metadata-closes small no_metadata (47 ∷ 97 ∷ []) standard
      ((small.operate (open_at (47 ∷ 97 ∷ []) o_cloexec 0x1B6) standard).1) 9 refl refl

-- The bytes of the file are not UTF-8.
abbrev not_text : ℕ → Descriptors → Result (List ℕ) IoError × Descriptors
not_text fd w = (err custom, w)

path_read_to_string-panics_test :
    path_read_to_string small not_text false (47 ∷ 97 ∷ []) standard ≡ panics
path_read_to_string-panics_test =
    path_read_to_string-panics small not_text (47 ∷ 97 ∷ []) standard
      ((small.operate (open_at (47 ∷ 97 ∷ []) o_cloexec 0x1B6) standard).1)
      ((small.operate (open_at (47 ∷ 97 ∷ []) o_cloexec 0x1B6) standard).1) 9 refl refl refl
