-- ===== src/Http/Reader.antt =====
-- `reader` of src/ecosystem/http/server/mod.rs: the fiber that reads a connection into its circular
-- buffer and wakes the fiber that waits for data.
pub mod Appending
use uringy.Common.{
  ℕ, ◌≡◌, Bool, true, false, Option, none, some, List, [], ◌∷◌, ◌++◌, Result, ok, err, Panics,
  returns, panics, ◌>>=◌, length,
}
use uringy.Errors.{IoError}
use uringy.CircularBuffer.Memory.{Translate, Files, write_slice}
use uringy.CircularBuffer.{State, Slice, deref_uninit, commit}

-- The buffer, the bytes of the memory files, the fibers that have been scheduled, and whether the loop
-- is over.
pub record Reading : Type 0 where
  pub buffer : State
  pub files : Files
  pub woken : List ℕ
  pub is_over : Bool

-- `Option::take` on the waker, and its `schedule`
abbrev pub taken : Option ℕ → List ℕ
taken none = []
taken (some waker) = waker ∷ []

abbrev expect_written : Option Files → Panics Files
expect_written (some files) = returns files
expect_written none = panics

-- The connection is a parameter: what it reads in each round, or an error, and the waker that is left
-- in `waiting_for_data` by then. It writes the bytes that it reads to the start of the slice; a write
-- to an unmapped address would be a fault.
module _ (checks : Bool) (t : Translate) where
  unfoldable pub reader : List (Result (List ℕ) IoError × Option ℕ) → State → Files → Panics Reading
  reader [] b files = returns (record { buffer = b; files = files; woken = []; is_over = false })
  reader ((result, waiting) ∷ rounds) b files = do
    slice ← deref_uninit checks b
    elim result [
      | err e ↦ returns (record { buffer = b; files = files; woken = []; is_over = true })
      | ok bytes ↦ elim bytes [
        | [] ↦ returns (record { buffer = b; files = files; woken = []; is_over = true })
        | byte ∷ bytes' ↦ (do
          files' ← expect_written (write_slice t files slice.address (byte ∷ bytes'))
          b' ← commit checks b (length (byte ∷ bytes'))
          rest ← reader rounds b' files'
          returns (record rest { woken = taken waiting ++ rest.woken }))
      ]
    ]
