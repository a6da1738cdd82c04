-- ===== src/Fs/Descriptors.antt =====
-- The descriptors that the operations of src/fs.rs leave open.
use uringy.Common.{ℕ, ◌≡◌, refl, ◌≢◌, false, List, Result, ok, err, returns, arith, contains}
use uringy.Common.Int.{pos}
use uringy.Errors.{Error, IoError}
use uringy.Runtime.Calls.{classify}
use uringy.Kernel.{open_at, Kernel, call, borrowed}
use uringy.Fs.{
  open_flags, file_open_options, o_cloexec, get_access_mode, get_creation_mode, access_mode,
  creation_mode, is_refused, new_options, with_read,
}
use uringy.Fs.Calls.{metadata, drop_file, open_file, path_metadata}

module _ (K : Kernel) where
  -- Whether the operation succeeds or not, other descriptors stay as it left them.
  others :
      {A : Type 0} (o : Result A IoError × K.World) (fd k : ℕ)
      → k ≢ fd
      → K.descriptors ((borrowed K fd o).1) k ≡ K.descriptors (o.1) k
  others (ok a, w) fd k ne = refl
  others (err e, w) fd k ne = ground (arith, K.descriptors-without fd w k)

  -- The metadata of a path that can be opened: whether reading it succeeds or not, the descriptor that
  -- was opened for it is closed at the end, and the others are as reading it left them. This is so in a
  -- fiber that is not cancelled.
  pub path_metadata-closes :
      {Metadata : Type 0} (std_metadata : ℕ → K.World → Result Metadata IoError × K.World)
      (path : List ℕ) (w w1 : K.World) (fd : ℕ)
      → contains path 0 ≡ false
      → K.operate (open_at path o_cloexec 0x1B6) w ≡ (pos fd, w1)
      → (result : Result Metadata (Error IoError)) × (w2 : K.World) × (path_metadata K std_metadata
            false path w
          ≡ returns (result, w2))
        × (K.descriptors w2 fd ≡ false)
        × ((k : ℕ) → k ≢ fd → K.descriptors w2 k ≡ K.descriptors ((std_metadata fd w1).1) k)
  unfolding path_metadata metadata open_file drop_file call open_flags file_open_options
      get_access_mode get_creation_mode access_mode creation_mode is_refused new_options with_read
      classify
  path_metadata-closes std_metadata path w w1 fd clean opened =
      let found : Result _ (Error IoError) × K.World = metadata K std_metadata fd w1 in
      (
        found.0,
        drop_file K false fd (found.1),
        ground (arith, clean, opened),
        ground (arith, K.descriptors-close fd (found.1) fd),
        λ k ne.
            ground (arith, K.descriptors-close fd (found.1) k, others (std_metadata fd w1) fd k ne),
      )
