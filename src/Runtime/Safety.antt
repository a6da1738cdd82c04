-- ===== src/Runtime/Safety.antt =====
-- The invariant of the runtime of src/runtime/mod.rs between two operations: how fibers, their
-- children, the ready queue and the join handles hang together.
mod Frame
pub mod Waking
mod Growth
pub mod Births
mod Leaving
mod Departure
mod Parting
pub mod Joining
mod Parking
mod Calling
mod Ending
pub mod Steps
mod Returned
pub mod Reach
mod Cancelling
use uringy.Common.{ℕ, ◌≡◌, ◌≢◌, ◌⊎◌, Option, none, some, Elem}
use uringy.Runtime.Slab.{Slab}
use uringy.Runtime.State.{waiting, FiberState, Runtime}
use uringy.Runtime.Cancel.Forest.{IsRanked}
use uringy.Runtime.Fibers.Family.{IsOrdered}

module _ (S : Slab FiberState) where
  -- Fiber `k` is in the slab, with this state.
  abbrev pub Has : Runtime S → ℕ → FiberState → Type 0
  Has rt k f = S.get rt.fibers k ≡ some f

  -- Fiber `k` is there and has not left: it is the root, or among the children of its parent.
  abbrev pub IsLinked : Runtime S → ℕ → Type 0
  IsLinked rt k =
      (g : FiberState) × Has rt k g
      × ((k ≡ 0)
          ⊎ ((p : ℕ) × (f : FiberState) × (g.parent ≡ some p) × Has rt p f × Elem k f.children))

  -- Fibers form a tree: the children of a fiber are there and have it as their parent, a fiber with
  -- children has not left, and fiber 0 is the root.
  pub record IsTree (rt : Runtime S) : Type 0 where
    pub rank : ℕ → ℕ
    pub ranked : IsRanked S rt rank
    pub parent_of :
        (p c : ℕ) (f g : FiberState)
        → Has rt p f
        → Elem c f.children
        → Has rt c g
        → g.parent ≡ some p
    pub ordered : (p : ℕ) (f : FiberState) → Has rt p f → IsOrdered f.children
    pub parents_linked : (p c : ℕ) (f : FiberState) → Has rt p f → Elem c f.children → IsLinked rt p
    pub root : (f : FiberState) × Has rt 0 f × (f.parent ≡ none)

  -- The fibers that can still run have not left: those in the ready queue, and those that are woken
  -- by the completion of a fiber that they join. A fiber that has not left has not woken its joiner.
  pub record IsSound (rt : Runtime S) : Type 0 where
    pub tree : IsTree rt
    pub ready_linked : (k : ℕ) → Elem k rt.ready_fibers → IsLinked rt k
    pub joiner_linked :
        (k j : ℕ) (f : FiberState) → Has rt k f → f.join_handle ≡ waiting (some j) → IsLinked rt j
    pub unjoined :
        (k : ℕ) (f : FiberState) → IsLinked rt k → Has rt k f → f.join_handle ≢ waiting none

  -- The invariant while fiber `r` runs.
  pub record IsRunning (rt : Runtime S) (r : ℕ) : Type 0 where
    pub sound : IsSound rt
    pub runs : rt.running_fiber ≡ some r
    pub linked : IsLinked rt r
