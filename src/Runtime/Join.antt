-- ===== src/Runtime/Join.antt =====
-- Join handles in src/runtime/mod.rs. `join` is cut at its two parks. A handle is dropped whenever
-- `join` returns.
pub mod Outcome
use uringy.Common.{
  ℕ, ◌≡◌, Bool, true, false, not, ◌&&◌, Option, none, some, List, [], ◌∷◌, Panics, returns, panics,
  ◌>>=◌, ◌>>◌, assert, Result, ok, err, if◌then◌else◌,
}
use uringy.Errors.{Error, original, cancelled}
use uringy.Runtime.Slab.{Slab}
use uringy.Runtime.State.{
  JoinHandleState, unused, waiting, dropped, Output, value, panicked, Union, closure, output,
  FiberState, RuntimeState, Runtime, unwrap, fiber, update_fiber, running,
}
use uringy.Runtime.Scheduler.{Cqe, process_io, park}
use uringy.Runtime.Cancel.{is_cancelled}
use uringy.Runtime.Fibers.{Progress, finished, suspended}

-- What `join` returns.
abbrev pub JoinResult : Type 0
JoinResult = Result ℕ (Error ℕ)

abbrev pub to_join_result : Output → JoinResult
to_join_result (value n) = ok n
to_join_result (panicked p) = err (original p)

abbrev to_output : Union → Panics Output
to_output (output o) = returns o
to_output (closure c) = panics

module _ (S : Slab FiberState) where
  -- `Drop for JoinHandle`
  unfoldable pub drop_handle : ℕ → Runtime S → Panics (Runtime S)
  drop_handle k rt = do
    rt' ← update_fiber S rt k (λ f. record f { join_handle = dropped })
    f ← fiber S rt' k
    returns (
        if f.is_completed
        then record rt' { stack_pool = f.stack ∷ rt'.stack_pool; fibers = S.remove rt'.fibers k }
        else rt')

  -- `read_output`. Anything but an output on the stack would be undefined behaviour.
  unfoldable pub read_output : ℕ → Runtime S → Panics JoinResult
  read_output k rt = do
    f ← fiber S rt k
    u ← unwrap (rt.memory f.stack)
    o ← to_output u
    returns (to_join_result o)

  -- `join` returns a result, and the handle goes out of scope.
  unfoldable pub return_joined :
      ℕ → JoinResult → Runtime S → Panics (Progress JoinResult (Runtime S))
  unfolding drop_handle
  return_joined k result rt = do rt' ← drop_handle k rt; returns (finished result rt')

  unfoldable pub return_output : ℕ → Runtime S → Panics (Progress JoinResult (Runtime S))
  unfolding read_output return_joined
  return_output k rt = do result ← read_output k rt; return_joined k result rt

  -- The schedule callback of the first park.
  unfoldable pub await_completion : ℕ → ℕ → Runtime S → Panics (Runtime S)
  await_completion k waker rt = do
    f ← fiber S rt k
    assert (not f.is_completed)
    update_fiber S rt k (λ g. record g { join_handle = waiting (some waker) })

  -- `join`, up to the first park
  unfoldable pub join : List (List Cqe) → ℕ → Runtime S → Panics (Progress JoinResult (Runtime S))
  unfolding return_output return_joined is_cancelled park await_completion
  join rounds k rt = do
    f ← fiber S rt k
    here ← is_cancelled S rt
    elim f.is_completed [
      | true ↦ return_output k rt
      | false ↦ elim (here && not f.is_cancelled) [
        | true ↦ return_joined k (err cancelled) rt
        | false ↦ (do next ← park S (await_completion k) rounds rt; returns (suspended next))
      ]
    ]

  -- `join` when the fiber runs again, up to the second park
  unfoldable pub join_resumed :
      List (List Cqe) → ℕ → Runtime S → Panics (Progress JoinResult (Runtime S))
  unfolding return_output return_joined is_cancelled park
  join_resumed rounds k rt = do
    f ← fiber S rt k
    here ← is_cancelled S rt
    elim f.is_completed [
      | true ↦ return_output k rt
      | false ↦ (do
        assert here
        elim f.is_cancelled [
          | false ↦ return_joined k (err cancelled) rt
          | true ↦ (do next ← park S (λ _ r. returns r) rounds rt; returns (suspended next))
        ])
    ]

  -- `join` after the second park
  unfoldable pub join_final : ℕ → Runtime S → Panics (Progress JoinResult (Runtime S))
  unfolding return_output
  join_final k rt = return_output k rt
