-- ===== src/CircularBuffer/Wrap.antt =====
-- Where the operations of src/circular_buffer.rs panic: at the limits that they guard, and once the
-- tail position has passed 2^64.
use native.Mathlib.Nat.{mod-eq_of_lt}
use uringy.Common.{ℕ, ◌+◌, ◌-◌, ◌≤◌, ◌<◌, ◌≡◌, ◌↔◌, Bool, true, returns, panics, arith}
use uringy.CircularBuffer.{State, usize_mod, commit, consume, data_len}
use uringy.CircularBuffer.Refine.{IsValid}

-- On a valid buffer `commit` panics exactly on more bytes than are free, and `consume` exactly on
-- more bytes than there are, for a number that does not take the head to 2^64.
pub commit-consume-panics :
    (checks : Bool) {s : State} (n : ℕ)
    → IsValid s
    → s.head + n < usize_mod
    → ((commit checks s n ≡ panics) ↔ (s.length < s.tail - s.head + n))
      × (((consume s n).1 ≡ panics) ↔ (s.tail - s.head < n))
unfolding commit consume
commit-consume-panics checks {s} n v small = ground (arith, mod-eq_of_lt small)

-- A commit that takes the tail to 2^64 or past it succeeds, and then the buffer is unusable: with
-- overflow checks its length panics, and consuming any of its bytes below 2^64 panics.
pub commit-wrapped :
    (checks : Bool) {s : State} (n k : ℕ)
    → IsValid s
    → s.tail - s.head + n ≤ s.length
    → usize_mod ≤ s.tail + n
    → s.head + k < usize_mod
    → (s' : State) × (commit checks s n ≡ returns s')
      × (data_len true s' ≡ panics)
      × ((consume s' k).1 ≡ panics)
unfolding commit consume data_len
commit-wrapped checks {s} n k v room wraps below = (
  record s { tail = s.tail + n - usize_mod },
  ground arith,
  ground arith,
  ground (arith, mod-eq_of_lt below),
)
