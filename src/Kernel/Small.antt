-- ===== src/Kernel/Small.antt =====
-- A kernel for the tests: it knows the open descriptors, and gives descriptor 9 to what it opens.
use uringy.Common.{refl, true, false, ◌==◌, if◌then◌else◌}
use uringy.Common.Int.{ℤ, pos}
use uringy.Kernel.{
  Sqe, fsync, write, read, open_at, unlink_at, send, recv, accept, close, Descriptors, closed,
  Kernel,
}

abbrev opens : Descriptors → ℤ × Descriptors
opens w = (pos 9, λ k. if k == 9 then true else w k)

abbrev operated : Sqe → Descriptors → ℤ × Descriptors
operated (fsync fd b) w = (pos 0, w)
operated (write fd bs) w = (pos 0, w)
operated (read fd n) w = (pos 0, w)
operated (open_at path flags mode) w = opens w
operated (unlink_at path) w = (pos 0, w)
operated (send fd bs) w = (pos 0, w)
operated (recv fd n) w = (pos 0, w)
operated (accept fd flags) w = opens w
operated (close fd) w = (pos 0, closed fd w)

abbrev pub small : Kernel
small = record {
  World = Descriptors;
  operate = operated;
  descriptors = λ w. w;
  without = closed;
  descriptors-close = λ fd w k. refl;
  descriptors-without = λ fd w k. refl;
}

abbrev pub standard : Descriptors
standard k = if k == 7 then true else false
