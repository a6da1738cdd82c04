-- ===== src/Runtime/Fibers/Depth.antt =====
-- The depth of the stack that a fiber of src/runtime/mod.rs needs when it ends.
use uringy.Common.{ℕ, ◌≤◌, ◌≡◌, Bool, true, false, Option, List, returns, bind-returns}
use uringy.Runtime.Slab.{Slab}
use uringy.Runtime.State.{
  JoinHandleState, unused, waiting, dropped, Output, FiberState, Runtime, unwrap, fiber, running,
  set_is_empty,
}
use uringy.Runtime.Scheduler.{Cqe, park}
use uringy.Runtime.Cancel.{nearest_contained}
use uringy.Runtime.Cancel.Depth.{cancel-deeper}
use uringy.Runtime.Fibers.{complete, wake_joiner, depart, spawn_returned, is_err}

module _ (S : Slab FiberState) where
  wake_joiner-deeper :
      (fuel fuel' k : ℕ) (b : Bool) (j : JoinHandleState) (rt rt' : Runtime S)
      → fuel ≤ fuel'
      → wake_joiner S fuel k b j rt ≡ returns rt'
      → wake_joiner S fuel' k b j rt ≡ returns rt'
  unfolding wake_joiner
  wake_joiner-deeper fuel fuel' k b (waiting w) rt rt' l e = e
  wake_joiner-deeper fuel fuel' k true unused rt rt' l e =
      cancel-deeper S fuel fuel' (nearest_contained k) rt rt' l e
  wake_joiner-deeper fuel fuel' k true dropped rt rt' l e =
      cancel-deeper S fuel fuel' (nearest_contained k) rt rt' l e
  wake_joiner-deeper fuel fuel' k false unused rt rt' l e = e
  wake_joiner-deeper fuel fuel' k false dropped rt rt' l e = e

  pub depart-deeper :
      (fuel fuel' : ℕ) (rounds : List (List Cqe)) (b : Bool) (rt : Runtime S)
      (next : Option (Runtime S))
      → fuel ≤ fuel'
      → depart S fuel rounds b rt ≡ returns next
      → depart S fuel' rounds b rt ≡ returns next
  unfolding depart
  depart-deeper fuel fuel' rounds b rt next l e =
      let (k, e1, r1) = bind-returns (unwrap rt.running_fiber) _ next e in
      let (f, e2, r2) = bind-returns (fiber S rt k) _ next r1 in
      let (rt1, e3, r3) = bind-returns (wake_joiner S fuel k b f.join_handle rt) _ next r2 in
      rw e1 (rw e2 (rw (wake_joiner-deeper fuel fuel' k b f.join_handle rt rt1 l e3) r3))

  pub spawn_returned-deeper :
      (fuel fuel' : ℕ) (rounds : List (List Cqe)) (result : Output) (rt : Runtime S)
      (next : Option (Runtime S))
      → fuel ≤ fuel'
      → spawn_returned S fuel rounds result rt ≡ returns next
      → spawn_returned S fuel' rounds result rt ≡ returns next
  unfolding spawn_returned
  spawn_returned-deeper fuel fuel' rounds result rt next l e =
      let (rt1, e1, r1) = bind-returns (complete S result rt) _ next e in
      let (f, e2, r2) = bind-returns (running S rt1) _ next r1 in
      rw e1 (rw e2 (go rt1 (set_is_empty f.children) r2))
    where
      go :
          (rt1 : Runtime S) (b : Bool)
          → elim b [
            | false ↦ park S (λ _ r. returns r) rounds rt1
            | true ↦ depart S fuel rounds (is_err result) rt1
          ]
            ≡ returns next
          → elim b [
            | false ↦ park S (λ _ r. returns r) rounds rt1
            | true ↦ depart S fuel' rounds (is_err result) rt1
          ]
            ≡ returns next
      go rt1 false e = e
      go rt1 true e = depart-deeper fuel fuel' rounds (is_err result) rt1 next l e
