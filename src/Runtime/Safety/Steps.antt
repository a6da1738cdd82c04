-- ===== src/Runtime/Safety/Steps.antt =====
-- What the running fiber of src/runtime/mod.rs can do, as steps from one runtime to the next.
use uringy.Common.{ℕ, ◌≡◌, ◌≢◌, Bool, true, Option, some, List, Elem, returns}
use uringy.Runtime.Slab.{Slab}
use uringy.Runtime.State.{waiting, Output, FiberState, Runtime, new_runtime}
use uringy.Runtime.Scheduler.{Cqe, park, yield_now, schedule_with}
use uringy.Runtime.Cancel.{cancel}
use uringy.Runtime.Fibers.{
  Progress, finished, suspended, start, spawn, depart, spawn_returned, start_returned,
}
use uringy.Runtime.Join.{JoinResult, drop_handle, join, join_resumed, join_final}
use uringy.Runtime.Calls.{IoResult, syscall, syscall_resumed}
use uringy.Runtime.Safety.{Has, IsLinked}
use uringy.Runtime.Safety.Waking.{AreLinked}
use uringy.Runtime.Safety.Departure.{IsDone}
use uringy.Runtime.Safety.Parting.{AreOthers}
use uringy.Runtime.Safety.Joining.{IsJoinable}

module _ (S : Slab FiberState) where
  -- The runtime in which a fiber goes on.
  abbrev pub Gives : {A : Type 0} → Progress A (Runtime S) → Runtime S → Type 0
  Gives (finished a rt) rt' = rt ≡ rt'
  Gives (suspended next) rt' = next ≡ some rt'

  -- The completions that arrive while a fiber is parked are of fibers that have not left; `Waker`s and
  -- `cancel` are used on such fibers too.
  pub data Step (rt rt' : Runtime S) : Type 0 where
    spawned :
        (new_stack : Option ℕ) (f child : ℕ)
        → spawn S new_stack f rt ≡ returns (child, rt')
        → Step rt rt'
    woken : (k : ℕ) → IsLinked S rt k → schedule_with S k rt ≡ rt' → Step rt rt'
    cancels : (fuel k : ℕ) → IsLinked S rt k → cancel S fuel k rt ≡ returns rt' → Step rt rt'
    yielded :
        (rounds : List (List Cqe))
        → AreLinked S rt rounds
        → yield_now S rounds rt ≡ returns (some rt')
        → Step rt rt'
    -- Parking with a callback that keeps the waker outside of the runtime.
    parked :
        (rounds : List (List Cqe))
        → AreLinked S rt rounds
        → park S (λ _ x. returns x) rounds rt ≡ returns (some rt')
        → Step rt rt'
    -- A handle of a fiber that has not completed, or that has left.
    handle_dropped :
        (k : ℕ) (f : FiberState)
        → Has S rt k f
        → (f.is_completed ≡ true → IsLinked S rt k → ⊥)
        → drop_handle S k rt ≡ returns rt'
        → Step rt rt'
    called :
        (rounds : List (List Cqe)) (p : Progress IoResult (Runtime S))
        → AreLinked S rt rounds
        → syscall S rounds rt ≡ returns p
        → Gives p rt'
        → Step rt rt'
    call_resumed :
        (rounds : List (List Cqe)) (p : Progress IoResult (Runtime S))
        → AreLinked S rt rounds
        → syscall_resumed S rounds rt ≡ returns p
        → Gives p rt'
        → Step rt rt'
    joined :
        (rounds : List (List Cqe)) (k : ℕ) (f : FiberState) (p : Progress JoinResult (Runtime S))
        → IsJoinable S rt k f
        → AreLinked S rt rounds
        → join S rounds k rt ≡ returns p
        → Gives p rt'
        → Step rt rt'
    joiner_resumed :
        (rounds : List (List Cqe)) (k : ℕ) (f : FiberState) (p : Progress JoinResult (Runtime S))
        → IsJoinable S rt k f
        → AreLinked S rt rounds
        → join_resumed S rounds k rt ≡ returns p
        → Gives p rt'
        → Step rt rt'
    joiner_done :
        (k : ℕ) (f : FiberState) (p : Progress JoinResult (Runtime S))
        → IsJoinable S rt k f
        → f.is_completed ≡ true
        → join_final S k rt ≡ returns p
        → Gives p rt'
        → Step rt rt'
    -- The closure of a fiber other than the root has returned. Nothing is left that could run the
    -- fiber again, unless its children do.
    ended :
        (fuel r : ℕ) (rounds : List (List Cqe)) (result : Output)
        → rt.running_fiber ≡ some r
        → r ≢ 0
        → (Elem r rt.ready_fibers → ⊥)
        → ((k : ℕ) (f : FiberState) → Has S rt k f → f.join_handle ≢ waiting (some r))
        → AreOthers S rt r rounds
        → spawn_returned S fuel rounds result rt ≡ returns (some rt')
        → Step rt rt'
    -- It runs again when its children have left.
    departed :
        (fuel r : ℕ) (rounds : List (List Cqe)) (result_is_error : Bool) (f : FiberState)
        → rt.running_fiber ≡ some r
        → IsDone S rt r f
        → AreOthers S rt r rounds
        → depart S fuel rounds result_is_error rt ≡ returns (some rt')
        → Step rt rt'
    -- The closure of the root has returned, and the root waits for its children.
    root_ended :
        (rounds : List (List Cqe)) (result : Output)
        → AreLinked S rt rounds
        → start_returned S rounds result rt ≡ returns (suspended (some rt'))
        → Step rt rt'

  -- The runtimes that are reached from `start`.
  pub data Reach : Runtime S → Type 0 where
    started :
        (f base : ℕ) (rt : Runtime S)
        → start S (some base) f (new_runtime S) ≡ returns rt
        → Reach rt
    stepped : (rt rt' : Runtime S) → Reach rt → Step rt rt' → Reach rt'
