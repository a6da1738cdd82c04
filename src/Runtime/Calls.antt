-- ===== src/Runtime/Calls.antt =====
-- System calls in src/runtime/mod.rs, and `sleep` of src/time.rs. `syscall` is cut at its two parks.
pub mod Completion
use uringy.Common.{
  ℕ, suc, Bool, true, false, not, none, List, [], ◌∷◌, ◌++◌, Panics, returns, panics, ◌>>=◌, ◌>>◌,
  assert, Result, ok, err, ◌==◌, if◌then◌else◌, is_some,
}
use uringy.Common.Int.{ℤ, pos, negsuc}
use uringy.Errors.{Error, original, cancelled, IoError, raw_os, custom, ecanceled}
use uringy.Runtime.Slab.{Slab}
use uringy.Runtime.State.{
  Request, issue, cancel_syscall, FiberState, Runtime, unwrap, fiber, update_fiber,
}
use uringy.Runtime.Scheduler.{Cqe, park}
use uringy.Runtime.Cancel.{is_cancelled}
use uringy.Runtime.Fibers.{Progress, finished, suspended}

abbrev pub IoResult : Type 0
IoResult = Result ℕ (Error IoError)

-- The result of a system call: a negative one is an errno. The kernel never gives the least `i32`, whose
-- negation overflows.
unfoldable pub classify : ℤ → IoResult
classify (pos n) = ok n
classify (negsuc n) = if suc n == ecanceled then err cancelled else err (original (raw_os (suc n)))

module _ (S : Slab FiberState) where
  -- `read_syscall_result`
  unfoldable pub read_syscall_result : Runtime S → Panics (Progress IoResult (Runtime S))
  unfolding classify
  read_syscall_result rt = do
    k ← unwrap rt.running_fiber
    f ← fiber S rt k
    rt' ← update_fiber S rt k (λ g. record g { syscall_result = none })
    result ← unwrap f.syscall_result
    returns (finished (classify result) rt')

  abbrev request : Request → Runtime S → Runtime S
  request r rt = record rt { kernel = rt.kernel ++ (r ∷ []) }

  -- `syscall`, up to the first park
  unfoldable pub syscall : List (List Cqe) → Runtime S → Panics (Progress IoResult (Runtime S))
  unfolding is_cancelled park
  syscall rounds rt = do
    here ← is_cancelled S rt
    elim here [
      | true ↦ returns (finished (err cancelled) rt)
      | false ↦ (do
        k ← unwrap rt.running_fiber
        f ← fiber S rt k
        assert (not (is_some f.syscall_result))
        next ← park S (λ _ r. returns r) rounds (request (issue k) rt)
        returns (suspended next))
    ]

  -- `syscall` when the fiber runs again, up to the second park
  unfoldable pub syscall_resumed :
      List (List Cqe) → Runtime S → Panics (Progress IoResult (Runtime S))
  unfolding read_syscall_result is_cancelled park
  syscall_resumed rounds rt = do
    k ← unwrap rt.running_fiber
    f ← fiber S rt k
    elim (is_some f.syscall_result) [
      | true ↦ read_syscall_result rt
      | false ↦ (do
        here ← is_cancelled S rt
        assert here
        next ← park S (λ _ r. returns r) rounds (request (cancel_syscall k) rt)
        returns (suspended next))
    ]

-- `libc::ETIME`
abbrev pub etime : ℕ
etime = 62

-- `time::sleep` on the result of its timeout: `true` is `Ok(())`, `false` is `Cancelled`.
unfoldable pub sleep_result : IoResult → Panics Bool
sleep_result (ok n) = panics
sleep_result (err (original (raw_os e))) = do assert (e == etime); returns true
sleep_result (err (original custom)) = panics
sleep_result (err cancelled) = returns false
