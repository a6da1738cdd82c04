-- ===== src/Errors/Tests.antt =====
-- Runs of the conversions of src/lib.rs.
use uringy.Common.{◌≡◌, refl, returns, panics, arith}
use uringy.Errors.{original, cancelled, raw_os, custom, ecanceled, from_io_error, to_io_error}
use uringy.Errors.Laws.{from_io_error-to_io_error}

from_io_error-to_io_error_example :
    from_io_error (to_io_error (original (raw_os 104))) ≡ returns (original (raw_os 104))
from_io_error-to_io_error_example =
    from_io_error-to_io_error (original (raw_os 104)) (ground arith) (ground arith)

ecanceled_test : from_io_error (raw_os ecanceled) ≡ returns cancelled
unfolding from_io_error
ecanceled_test = refl

custom_test : from_io_error custom ≡ panics
unfolding from_io_error
custom_test = refl
