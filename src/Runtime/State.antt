-- ===== src/Runtime/State.antt =====
-- The state of src/runtime/mod.rs. Fiber indices and stack addresses are numbers. The machine context
-- that a `Continuation` points to is reduced to how the fiber resumes.
use uringy.Common.{
  ℕ, Bool, true, false, Option, none, some, List, [], ◌∷◌, Panics, returns, panics, ◌>>=◌, ◌==◌,
  ltb, if◌then◌else◌,
}
use uringy.Common.Int.{ℤ}
use uringy.Runtime.Slab.{Slab}

pub data Trampoline : Type 0 where
  start_trampoline spawn_trampoline : Trampoline

-- `prepare_stack` sets a fiber up to enter its trampoline; `jump` saves where it was.
pub data Continuation : Type 0 where
  prepared : Trampoline → Continuation
  saved : Continuation

pub data JoinHandleState : Type 0 where
  unused : JoinHandleState
  waiting : Option ℕ → JoinHandleState
  dropped : JoinHandleState

-- `thread::Result<T>`: a value, or the payload of a panic.
pub data Output : Type 0 where
  value : ℕ → Output
  panicked : ℕ → Output

-- The union at the top of a fiber's stack.
pub data Union : Type 0 where
  closure : ℕ → Union
  output : Output → Union

pub record FiberState : Type 0 where
  pub stack : ℕ
  pub continuation : Continuation
  pub join_handle : JoinHandleState
  pub parent : Option ℕ
  -- A `BTreeSet`, in ascending order.
  pub children : List ℕ
  pub syscall_result : Option ℤ
  pub is_completed : Bool
  pub is_cancelled : Bool

-- What the kernel interface was asked to do.
pub data Request : Type 0 where
  issue cancel_syscall : ℕ → Request

pub record RuntimeState (Store : Type 0) : Type 0 where
  pub kernel : List Request
  pub fibers : Store
  pub ready_fibers : List ℕ
  pub running_fiber : Option ℕ
  -- The `Vec`'s last element first.
  pub stack_pool : List ℕ
  -- The unions at the tops of the stacks.
  pub memory : ℕ → Option Union

-- `BTreeSet::insert` and `BTreeSet::remove`
unfoldable pub set_insert : ℕ → List ℕ → List ℕ
set_insert a [] = a ∷ []
set_insert a (x ∷ xs) =
    if a == x then x ∷ xs else if ltb a x then a ∷ x ∷ xs else x ∷ set_insert a xs

unfoldable pub set_remove : ℕ → List ℕ → List ℕ
set_remove a [] = []
set_remove a (x ∷ xs) = if a == x then xs else x ∷ set_remove a xs

abbrev pub set_is_empty : List ℕ → Bool
set_is_empty [] = true
set_is_empty (x ∷ xs) = false

-- `Option::unwrap` and `expect`
abbrev pub unwrap {ℓ} : {A : Type ℓ} → Option A → Panics A
unwrap none = panics
unwrap (some a) = returns a

-- A write to the union of the stack at `base`.
abbrev pub write_union : (ℕ → Option Union) → ℕ → Union → ℕ → Option Union
write_union m base u a = if a == base then some u else m a

module _ (S : Slab FiberState) where
  abbrev pub Runtime : Type 0
  Runtime = RuntimeState S.Store

  -- `RuntimeState::new`
  unfoldable pub new_runtime : Runtime
  new_runtime = record {
    kernel = [];
    fibers = S.empty;
    ready_fibers = [];
    running_fiber = none;
    stack_pool = [];
    memory = λ a. none;
  }

  -- `fibers[k]`, read and assigned to.
  abbrev pub fiber : Runtime → ℕ → Panics FiberState
  fiber rt k = unwrap (S.get rt.fibers k)

  abbrev pub update_fiber : Runtime → ℕ → (FiberState → FiberState) → Panics Runtime
  update_fiber rt k f = do
    old ← fiber rt k
    returns (record rt { fibers = S.set rt.fibers k (f old) })

  -- `RuntimeState::running`
  abbrev pub running : Runtime → Panics FiberState
  running rt = do k ← unwrap rt.running_fiber; fiber rt k
