-- ===== src/CircularBuffer/Commit.antt =====
-- What `Uninit::commit` of src/circular_buffer.rs changes.
use uringy.Common.{ℕ, ◌≡◌, Bool, returns, leb, assert, arith, bind-returns}
use uringy.CircularBuffer.{State, wrapping_add, uninit_len, commit}

-- A commit that returns has moved the tail and nothing else.
pub commit_eq :
    (checks : Bool) (s s' : State) (n : ℕ)
    → commit checks s n ≡ returns s'
    → s' ≡ record s { tail = wrapping_add s.tail n }
unfolding commit
commit_eq checks s s' n e =
    let (free, e1, r1) = bind-returns (uninit_len checks s) _ s' e in
    let (u, e2, r2) = bind-returns (assert (leb n free)) _ s' r1 in ground (arith, r2)
