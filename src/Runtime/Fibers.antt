-- ===== src/Runtime/Fibers.antt =====
-- Starting and finishing fibers in src/runtime/mod.rs: `create_fiber`, `start`, `spawn` and the two
-- trampolines. A trampoline is cut where it parks: what runs before is one function, what runs when
-- the fiber resumes another. The user's closure runs in between and gives its output.
pub mod Family
pub mod Depth
use uringy.Common.{
  ℕ, ◌≡◌, Bool, true, false, not, ◌&&◌, Option, none, some, List, [], ◌∷◌, ◌++◌, Panics, returns,
  panics, ◌>>=◌, ◌==◌, if◌then◌else◌,
}
use uringy.Runtime.Slab.{Slab}
use uringy.Runtime.State.{
  Trampoline, start_trampoline, spawn_trampoline, prepared, JoinHandleState, unused, waiting,
  dropped, Output, value, panicked, closure, output, FiberState, RuntimeState, Runtime, set_insert,
  set_remove, set_is_empty, unwrap, write_union, fiber, update_fiber, running, Union,
}
use uringy.Runtime.Scheduler.{Cqe, schedule_with, process_io, park}
use uringy.Runtime.Cancel.{cancel, nearest_contained}

-- Whether a `thread::Result` is an error.
abbrev pub is_err : Output → Bool
is_err (value n) = false
is_err (panicked n) = true

-- What a fiber that runs does next: it goes on with a value, or it has been suspended, and the next
-- fiber runs or the runtime waits.
pub data Progress (A R : Type 0) : Type 0 where
  finished : A → R → Progress A R
  suspended : Option R → Progress A R

-- `stack_pool.pop()`, or else a new stack, which the operating system may refuse
unfoldable pub take_stack : Option ℕ → List ℕ → Panics (ℕ × List ℕ)
take_stack new_stack [] = do base ← unwrap new_stack; returns (base, [])
take_stack new_stack (base ∷ pool) = returns (base, pool)

-- The state that `create_fiber` inserts.
abbrev pub new_fiber : ℕ → Trampoline → Bool → FiberState
new_fiber base trampoline is_cancelled = record {
  stack = base;
  continuation = prepared trampoline;
  join_handle = unused;
  parent = none;
  children = [];
  syscall_result = none;
  is_completed = false;
  is_cancelled = is_cancelled;
}

module _ (S : Slab FiberState) where
  -- `RuntimeState::create_fiber`
  unfoldable pub create_fiber :
      Option ℕ → ℕ → Trampoline → Bool → Runtime S → Panics (ℕ × Runtime S)
  unfolding take_stack
  create_fiber new_stack f trampoline is_cancelled rt = do
    (base, pool) ← take_stack new_stack rt.stack_pool
    let rt' : Runtime S = record rt {
      stack_pool = pool;
      memory = write_union rt.memory base (closure f);
      fibers = S.insert rt.fibers (new_fiber base trampoline is_cancelled);
    }
    returns (S.vacant_key rt.fibers, rt')

  -- `start`, up to the jump into the root fiber
  unfoldable pub start : Option ℕ → ℕ → Runtime S → Panics (Runtime S)
  unfolding create_fiber
  start new_stack f rt = do
    (root, rt') ← create_fiber new_stack f start_trampoline false rt
    returns (record rt' { running_fiber = some root })

  -- `spawn`: the index of the child, which the join handle holds
  unfoldable pub spawn : Option ℕ → ℕ → Runtime S → Panics (ℕ × Runtime S)
  unfolding create_fiber
  spawn new_stack f rt = do
    parent ← unwrap rt.running_fiber
    p ← fiber S rt parent
    (child, rt1) ← create_fiber new_stack f spawn_trampoline p.is_cancelled rt
    let rt2 : Runtime S = record rt1 { ready_fibers = rt1.ready_fibers ++ (child ∷ []) }
    rt3 ← update_fiber S rt2 parent (λ g. record g { children = set_insert child g.children })
    rt4 ← update_fiber S rt3 child (λ g. record g { parent = some parent })
    returns (child, rt4)

  -- Either trampoline when the closure has returned: the output is stored.
  unfoldable pub complete : Output → Runtime S → Panics (Runtime S)
  complete result rt = do
    k ← unwrap rt.running_fiber
    rt' ← update_fiber S rt k (λ f. record f { is_completed = true; is_cancelled = true })
    f ← fiber S rt' k
    returns (record rt' { memory = write_union rt'.memory f.stack (output result) })

  -- `spawn_trampoline`, "schedule joining fiber"
  unfoldable pub wake_joiner : ℕ → ℕ → Bool → JoinHandleState → Runtime S → Panics (Runtime S)
  unfolding schedule_with cancel nearest_contained
  wake_joiner fuel k result_is_error (waiting waker) rt = do
    rt' ← update_fiber S rt k (λ f. record f { join_handle = waiting none })
    joiner ← unwrap waker
    returns (schedule_with S joiner rt')
  wake_joiner fuel k result_is_error join_handle rt =
      if result_is_error then cancel S fuel (nearest_contained k) rt else returns rt

  -- `spawn_trampoline`, "cleanup parent"
  unfoldable pub leave_parent : ℕ → Runtime S → Panics (Runtime S)
  unfolding schedule_with
  leave_parent k rt = do
    f ← fiber S rt k
    parent ← unwrap f.parent
    rt' ← update_fiber S rt parent (λ p. record p { children = set_remove k p.children })
    p ← fiber S rt' parent
    returns (if p.is_completed && set_is_empty p.children then schedule_with S parent rt' else rt')

  -- `spawn_trampoline`, "deallocate stack"
  unfoldable pub free_dropped : ℕ → JoinHandleState → ℕ → Runtime S → Runtime S
  free_dropped k dropped stack rt = record rt {
    stack_pool = stack ∷ rt.stack_pool;
    fibers = S.remove rt.fibers k;
  }
  free_dropped k join_handle stack rt = rt

  -- The rest of `spawn_trampoline`, from the wait for the children on; it never returns.
  unfoldable pub depart : ℕ → List (List Cqe) → Bool → Runtime S → Panics (Option (Runtime S))
  unfolding wake_joiner leave_parent free_dropped process_io
  depart fuel rounds result_is_error rt = do
    k ← unwrap rt.running_fiber
    f ← fiber S rt k
    rt1 ← wake_joiner fuel k result_is_error f.join_handle rt
    rt2 ← leave_parent k rt1
    g ← fiber S rt2 k
    process_io S rounds (free_dropped k g.join_handle g.stack rt2)

  -- `spawn_trampoline` from the return of the closure on. With children the fiber parks first, and
  -- goes on with `depart` when it runs again.
  unfoldable pub spawn_returned :
      ℕ → List (List Cqe) → Output → Runtime S → Panics (Option (Runtime S))
  unfolding complete park depart
  spawn_returned fuel rounds result rt = do
    rt' ← complete result rt
    f ← running S rt'
    elim (set_is_empty f.children) [
      | false ↦ park S (λ _ r. returns r) rounds rt'
      | true ↦ depart fuel rounds (is_err result) rt'
    ]

  -- `start_trampoline` from the wait for the children on, and `start` after the jump back: the stack
  -- goes to the pool and the output is read from it. Anything but an output there would be undefined
  -- behaviour.
  unfoldable pub start_depart : Runtime S → Panics (Output × Runtime S)
  start_depart rt = do
    f ← running S rt
    u ← unwrap (rt.memory f.stack)
    let rt' : Runtime S = record rt { stack_pool = f.stack ∷ rt.stack_pool }
    elim u [ output o ↦ returns (o, rt') | closure c ↦ panics ]

  -- `start_trampoline` from the return of the closure on.
  unfoldable pub start_returned :
      List (List Cqe) → Output → Runtime S → Panics (Progress Output (Runtime S))
  unfolding complete park start_depart
  start_returned rounds result rt = do
    rt' ← complete result rt
    f ← running S rt'
    elim (set_is_empty f.children) [
      | false ↦ (do next ← park S (λ _ r. returns r) rounds rt'; returns (suspended next))
      | true ↦ (do (o, rt'') ← start_depart rt'; returns (finished o rt''))
    ]
