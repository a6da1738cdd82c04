-- ===== src/Errors.antt =====
-- src/lib.rs: `crate::Error` and its conversions. An `io::Error` is modelled by its raw OS error, if
-- it has one.
mod Laws
mod Tests
use uringy.Common.{
  ℕ, Bool, true, false, Option, none, some, Panics, returns, panics, ◌==◌, if◌then◌else◌,
}

pub data Error {ℓ} (E : Type ℓ) : Type ℓ where
  original : E → Error E
  cancelled : Error E

-- `io::Error`: an errno, or an error that the library made.
pub data IoError : Type 0 where
  raw_os : ℕ → IoError
  custom : IoError

-- `libc::ECANCELED`
abbrev pub ecanceled : ℕ
ecanceled = 125

-- `Error::map`
unfoldable pub map_error {ℓ κ} : {E : Type ℓ} {U : Type κ} → (E → U) → Error E → Error U
map_error f (original e) = original (f e)
map_error f cancelled = cancelled

-- `Error::and_then`
unfoldable pub and_then {ℓ κ} : {E : Type ℓ} {U : Type κ} → (E → Error U) → Error E → Error U
and_then f (original e) = f e
and_then f cancelled = cancelled

-- `Error::from_io_error`, which unwraps the raw OS error
unfoldable pub from_io_error : IoError → Panics (Error IoError)
from_io_error (raw_os n) =
    if n == ecanceled then returns cancelled else returns (original (raw_os n))
from_io_error custom = panics

-- `From<Error<io::Error>> for io::Error`
unfoldable pub to_io_error : Error IoError → IoError
to_io_error (original e) = e
to_io_error cancelled = raw_os ecanceled
