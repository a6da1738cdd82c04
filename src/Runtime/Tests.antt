-- ===== src/Runtime/Tests.antt =====
-- Runs of src/runtime/mod.rs on a small family of fibers, in a slab that is a vector of slots.
mod Lifecycle
mod Machine
mod Serving
use uringy.Common.{
  ℕ, zero, suc, ◌-◌, ◌+◌, ◌≡◌, ◌≢◌, ok, err, refl, Bool, true, false, Option, none, some, List, [],
  ◌∷◌, ◌++◌, returns, panics, ◌==◌, if◌then◌else◌, arith, Elem, contains, map, map_option,
}
use uringy.Errors.{original, cancelled, raw_os}
use uringy.Common.Int.{pos, negsuc}
use uringy.Runtime.Slab.{Slab}
use uringy.Runtime.State.{
  issue, prepared, panicked, FiberState, Runtime, output, closure, value, saved, unused,
  spawn_trampoline, set_insert, set_remove, set_is_empty,
}
use uringy.Runtime.Scheduler.{Cqe, process_io, process_completed, async_cancellation}
use uringy.Runtime.Scheduler.Order.{process_io_lem, enqueue_all, with_latest, Distinct}
use uringy.Runtime.Calls.{IoResult, syscall, syscall_resumed}
use uringy.Runtime.Calls.Completion.{syscall-classify}
use uringy.Runtime.Fibers.{suspended, take_stack, new_fiber, spawn, leave_parent, finished}
use uringy.Runtime.Fibers.Family.{spawn_lem, leave_parent_lem}
use uringy.Runtime.Join.{JoinResult, join, to_join_result}
use uringy.Runtime.Join.Outcome.{join-completed, join-orphans}

module _ {A : Type 0} where
  abbrev vacant : List (Option A) → ℕ
  vacant [] = 0
  vacant (none ∷ xs) = 0
  vacant (some a ∷ xs) = suc (vacant xs)

  abbrev insert : List (Option A) → A → List (Option A)
  insert [] a = some a ∷ []
  insert (none ∷ xs) a = some a ∷ xs
  insert (some b ∷ xs) a = some b ∷ insert xs a

  abbrev get : List (Option A) → ℕ → Option A
  get [] k = none
  get (x ∷ xs) zero = x
  get (x ∷ xs) (suc k) = get xs k

  abbrev put : List (Option A) → ℕ → Option A → List (Option A)
  put [] k x = []
  put (y ∷ ys) zero x = x ∷ ys
  put (y ∷ ys) (suc k) x = y ∷ put ys k x

  get-vacant : (xs : List (Option A)) → get xs (vacant xs) ≡ none
  get-vacant [] = refl
  get-vacant (none ∷ xs) = refl
  get-vacant (some a ∷ xs) = get-vacant xs

  get-insert :
      (xs : List (Option A)) (a : A) (k : ℕ)
      → get (insert xs a) k ≡ (if k == vacant xs then some a else get xs k)
  get-insert [] a zero = refl
  get-insert [] a (suc k) = ground arith
  get-insert (none ∷ xs) a zero = refl
  get-insert (none ∷ xs) a (suc k) = ground arith
  get-insert (some b ∷ xs) a zero = ground arith
  get-insert (some b ∷ xs) a (suc k) = ground (arith, get-insert xs a k)

  get-put :
      (xs : List (Option A)) (j : ℕ) (a b : A) (k : ℕ)
      → get xs j ≡ some b
      → get (put xs j (some a)) k ≡ (if k == j then some a else get xs k)
  get-put [] j a b k h = ground arith
  get-put (x ∷ xs) zero a b zero h = refl
  get-put (x ∷ xs) zero a b (suc k) h = ground arith
  get-put (x ∷ xs) (suc j) a b zero h = ground arith
  get-put (x ∷ xs) (suc j) a b (suc k) h = ground (arith, get-put xs j a b k h)

  get-remove :
      (xs : List (Option A)) (j k : ℕ) → get (put xs j none) k ≡ (if k == j then none else get xs k)
  get-remove [] j k = ground arith
  get-remove (x ∷ xs) zero zero = refl
  get-remove (x ∷ xs) zero (suc k) = ground arith
  get-remove (x ∷ xs) (suc j) zero = ground arith
  get-remove (x ∷ xs) (suc j) (suc k) = ground (arith, get-remove xs j k)

abbrev slots : Slab FiberState
slots = record {
  Store = List (Option FiberState);
  empty = [];
  vacant_key = vacant;
  vacant_key-empty = refl;
  insert = insert;
  get = get;
  set = λ xs k a. put xs k (some a);
  remove = λ xs k. put xs k none;
  get-empty = λ k. refl;
  get-vacant_key = get-vacant;
  get-insert = get-insert;
  get-set = get-put;
  get-remove = get-remove;
}

abbrev fiber_at : ℕ → Option ℕ → List ℕ → Bool → FiberState
fiber_at stack parent children is_completed = record {
  stack = stack;
  continuation = saved;
  join_handle = unused;
  parent = parent;
  children = children;
  syscall_result = none;
  is_completed = is_completed;
  is_cancelled = is_completed;
}

-- Fiber 0 runs, its child 1 has completed and waits for its child 2, which is not ready.
abbrev family : Runtime slots
family = record {
  kernel = [];
  fibers =
      some (fiber_at 4096 none (1 ∷ []) false)
      ∷ some (fiber_at 8192 (some 0) (2 ∷ []) true)
      ∷ some (fiber_at 12288 (some 1) [] false)
      ∷ [];
  ready_fibers = [];
  running_fiber = some 0;
  stack_pool = 16384 ∷ [];
  memory = λ a. if a == 8192 then some (output (value 7)) else none;
}

abbrev depth : ℕ → ℕ
depth k = 3 - k

-- Fiber 2 completes twice, and the cancellation of a system call completes.
abbrev round : List Cqe
round = (2, pos 5) ∷ (async_cancellation, pos 0) ∷ (2, negsuc 0) ∷ (0, pos 1) ∷ []

round-present :
    (j : ℕ)
    → Elem j ([] ++ map (λ c. c.0) (process_completed round))
    → (f : FiberState) × (get family.fibers j ≡ some f)
unfolding process_completed
round-present zero m = (fiber_at 4096 none (1 ∷ []) false, refl)
round-present (suc zero) m = (fiber_at 8192 (some 0) (2 ∷ []) true, refl)
round-present (suc (suc zero)) m = (fiber_at 12288 (some 1) [] false, refl)
round-present (suc (suc (suc k))) m = absurd (ground arith)

round-queue : enqueue_all [] (process_completed round) ≡ 2 ∷ 0 ∷ []
unfolding process_completed
round-queue = refl

process_io_example :
    (rt' : Runtime slots) × (process_io slots (round ∷ []) family ≡ returns (some rt'))
    × (rt'.running_fiber ≡ some 2)
    × (rt'.ready_fibers ≡ 0 ∷ [])
    × Distinct (2 ∷ 0 ∷ [])
    × ((j : ℕ)
        → get rt'.fibers j
          ≡ map_option (with_latest j (process_completed round)) (get family.fibers j))
process_io_example = process_io_lem slots [] round family 2 (0 ∷ []) round-present tt round-queue

family-stack : take_stack none (16384 ∷ []) ≡ returns (16384, [])
unfolding take_stack
family-stack = refl

spawn_example :
    (child : ℕ) × (rt' : Runtime slots) × (spawn slots none 9 family ≡ returns (child, rt'))
    × (get family.fibers child ≡ none)
    × ((k : ℕ)
        → get rt'.fibers k ≡ (
            if k == child
            then some (record {
              stack = 16384;
              continuation = prepared spawn_trampoline;
              join_handle = unused;
              parent = some 0;
              children = [];
              syscall_result = none;
              is_completed = false;
              is_cancelled = false;
            })
            else if k == 0
            then some (record (fiber_at 4096 none (1 ∷ []) false) {
              children = set_insert child (1 ∷ []);
            })
            else get family.fibers k))
    × (rt'.ready_fibers ≡ child ∷ [])
    × (rt'.memory 16384 ≡ some (closure 9))
    × (rt'.running_fiber ≡ some 0)
spawn_example =
    spawn_lem slots none 9 0 (fiber_at 4096 none (1 ∷ []) false) family 16384 [] refl refl
      family-stack

leave_parent_example :
    (rt' : Runtime slots) × (leave_parent slots 2 family ≡ returns rt')
    × ((j : ℕ)
        → get rt'.fibers j ≡ (
            if j == 1
            then some
                (record (fiber_at 8192 (some 0) (2 ∷ []) true) { children = set_remove 2 (2 ∷ []) })
            else get family.fibers j))
    × (rt'.ready_fibers ≡ (
        if set_is_empty (set_remove 2 (2 ∷ []))
        then (if contains [] 1 then [] else 1 ∷ [])
        else []))
leave_parent_example =
    leave_parent_lem slots 2 1 (fiber_at 12288 (some 1) [] false)
      (fiber_at 8192 (some 0) (2 ∷ []) true) family (ground arith) refl refl refl

join-completed_example :
    (result : JoinResult) × (rt' : Runtime slots) × (join slots [] 1 family
      ≡ returns (finished result rt'))
    × ((n : ℕ) → value 7 ≡ value n → result ≡ ok n)
    × ((p : ℕ) → value 7 ≡ panicked p → result ≡ err (original p))
    × (rt'.stack_pool ≡ 8192 ∷ 16384 ∷ [])
    × (rt'.ready_fibers ≡ [])
    × ((j : ℕ) → get rt'.fibers j ≡ (if j == 1 then none else get family.fibers j))
join-completed_example =
    join-completed slots [] 1 0 (fiber_at 8192 (some 0) (2 ∷ []) true)
      (fiber_at 4096 none (1 ∷ []) false) (value 7) family refl refl refl refl refl

join-orphans_example :
    (rt' : Runtime slots) × (join slots [] 1 family
      ≡ returns (finished (to_join_result (value 7)) rt'))
    × (rt'.stack_pool ≡ 8192 ∷ 16384 ∷ [])
    × (leave_parent slots 2 rt' ≡ panics)
join-orphans_example =
    join-orphans slots [] 1 0 2 (fiber_at 8192 (some 0) (2 ∷ []) true)
      (fiber_at 4096 none (1 ∷ []) false) (fiber_at 12288 (some 1) [] false) (value 7) family refl
      refl refl refl refl refl refl (ground arith)

syscall-classify_example :
    (result : IoResult) × (rt' : Runtime slots) × (rt'' : Runtime slots) × (syscall slots
        (((0, negsuc 3) ∷ []) ∷ [])
        family
      ≡ returns (suspended (some rt')))
    × (rt'.running_fiber ≡ some 0)
    × (rt'.kernel ≡ issue 0 ∷ [])
    × (syscall_resumed slots [] rt' ≡ returns (finished result rt''))
    × ((n : ℕ) → negsuc 3 ≡ pos n → result ≡ ok n)
    × (negsuc 3 ≡ negsuc 124 → result ≡ err cancelled)
    × ((n : ℕ) → negsuc 3 ≡ negsuc n → n ≢ 124 → result ≡ err (original (raw_os (n + 1))))
    × ((k : ℕ)
        → get rt''.fibers k ≡ (
            if k == 0
            then some (record (fiber_at 4096 none (1 ∷ []) false) {
              continuation = saved;
              syscall_result = none;
            })
            else get family.fibers k))
syscall-classify_example =
    syscall-classify slots [] [] 0 (fiber_at 4096 none (1 ∷ []) false) (negsuc 3) family refl refl
      refl refl refl (omega arith)
