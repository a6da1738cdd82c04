-- ===== src/Runtime/Scheduler.antt =====
-- The scheduler of src/runtime/mod.rs: wakers, `process_io`, `park` and `yield_now`.
pub mod Order
use uringy.Common.{
  ℕ, ◌+◌, ◌-◌, ◌^◌, ◌≡◌, Bool, true, false, Option, none, some, List, [], ◌∷◌, ◌++◌, Panics,
  returns, panics, ◌>>=◌, ◌==◌, contains, if◌then◌else◌,
}
use uringy.Common.Int.{ℤ}
use uringy.Runtime.Slab.{Slab}
use uringy.Runtime.State.{
  FiberState, RuntimeState, Runtime, Continuation, saved, unwrap, fiber, update_fiber, running,
}

-- A completion queue entry: its user data and its result.
abbrev pub Cqe : Type 0
Cqe = ℕ × ℤ

-- `ASYNC_CANCELLATION_USER_DATA`, which is `u64::MAX`
abbrev pub async_cancellation : ℕ
async_cancellation = 2 ^ 64 - 1

-- `Interface::process_completed`, from the entries of the completion queue
unfoldable pub process_completed : List Cqe → List Cqe
process_completed [] = []
process_completed ((user_data, result) ∷ cqes) =
    let rest = process_completed cqes in
    if user_data == async_cancellation then rest else (user_data, result) ∷ rest

module _ (S : Slab FiberState) where
  -- `Waker::schedule_with`; `Waker::schedule` applies it to the thread's runtime.
  unfoldable pub schedule_with : ℕ → Runtime S → Runtime S
  schedule_with k rt =
      if contains rt.ready_fibers k
      then rt
      else record rt { ready_fibers = rt.ready_fibers ++ (k ∷ []) }

  -- The `for` loop of `process_io` over the completions of one round.
  unfoldable pub deliver : List Cqe → Runtime S → Panics (Runtime S)
  unfolding schedule_with
  deliver [] rt = returns rt
  deliver ((user_data, result) ∷ cqes) rt = do
    rt' ← update_fiber S rt user_data (λ f. record f { syscall_result = some result })
    deliver cqes (schedule_with user_data rt')

  -- The `if let Some(fiber)` of `process_io`: the front of the ready queue becomes the running fiber.
  unfoldable pub pop_ready : Runtime S → List ℕ → Panics (Option (Runtime S))
  pop_ready rt [] = returns none
  pop_ready rt (k ∷ ready) = do
    f ← fiber S rt k
    returns (some (record rt { running_fiber = some k; ready_fibers = ready }))

  -- `process_io`. The list holds the completion queue as each round finds it; `none` says that the
  -- runtime still waits for completions when these rounds are over.
  unfoldable pub process_io : List (List Cqe) → Runtime S → Panics (Option (Runtime S))
  unfolding deliver pop_ready process_completed
  process_io [] rt = returns none
  process_io (cqes ∷ rounds) rt = do
    rt' ← deliver (process_completed cqes) rt
    next ← pop_ready rt' rt'.ready_fibers
    elim next [ some rt'' ↦ returns (some rt'') | none ↦ process_io rounds rt' ]

  -- `park`: the schedule callback runs with the running fiber's waker, the fiber's context is saved,
  -- and the next fiber runs.
  unfoldable pub park :
      (ℕ → Runtime S → Panics (Runtime S))
      → List (List Cqe)
      → Runtime S
      → Panics (Option (Runtime S))
  unfolding process_io
  park schedule rounds rt = do
    k ← unwrap rt.running_fiber
    rt' ← schedule k rt
    rt'' ← update_fiber S rt' k (λ f. record f { continuation = saved })
    process_io rounds rt''

  -- `yield_now`
  unfoldable pub yield_now : List (List Cqe) → Runtime S → Panics (Option (Runtime S))
  unfolding park
  yield_now rounds rt = park (λ k rt'. returns (schedule_with k rt')) rounds rt
