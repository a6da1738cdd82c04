-- ===== src/Errors/Laws.antt =====
-- Laws of the conversions of src/lib.rs.
use uringy.Common.{◌≡◌, refl, ◌≢◌, returns, arith}
use uringy.Errors.{
  Error, original, cancelled, IoError, raw_os, custom, ecanceled, from_io_error, to_io_error,
}

-- Converting an error to an `io::Error` and back gives it again, for `Cancelled` and for every error
-- of the operating system other than ECANCELED.
pub from_io_error-to_io_error :
    (e : Error IoError)
    → e ≢ original custom
    → e ≢ original (raw_os ecanceled)
    → from_io_error (to_io_error e) ≡ returns e
unfolding from_io_error to_io_error
from_io_error-to_io_error (original (raw_os n)) h k = ground arith
from_io_error-to_io_error (original custom) h k = absurd (h refl)
from_io_error-to_io_error cancelled h k = refl
