-- ===== src/Runtime/Safety/Returned.antt =====
-- What a call of src/runtime/mod.rs that returned had found in the runtime.
use uringy.Common.{
  ℕ, ◌≡◌, ◌⊎◌, inl, inr, true, Option, none, some, List, returns, Bool-cases, Option-cases, arith,
  bind-returns, is_some,
}
use uringy.Runtime.Slab.{Slab}
use uringy.Runtime.State.{unwrap, fiber, FiberState, Runtime}
use uringy.Runtime.Scheduler.{Cqe}
use uringy.Runtime.Cancel.{is_cancelled}
use uringy.Runtime.Fibers.{take_stack, create_fiber, Progress, spawn}
use uringy.Runtime.Join.{JoinResult, join_resumed}
use uringy.Runtime.Calls.{IoResult, syscall, syscall_resumed}
use uringy.Runtime.Safety.{Has}

module _ (S : Slab FiberState) where
  -- A fiber that spawned another had a stack for it.
  pub had_stack :
      (new_stack : Option ℕ) (f r child : ℕ) (rt rt' : Runtime S)
      → rt.running_fiber ≡ some r
      → spawn S new_stack f rt ≡ returns (child, rt')
      → (base : ℕ) × (pool : List ℕ) × (take_stack new_stack rt.stack_pool ≡ returns (base, pool))
  unfolding spawn create_fiber
  had_stack new_stack f r child rt rt' run e =
      let (k, e1, r1) = bind-returns (unwrap rt.running_fiber) _ (child, rt') e in
      let (p, e2, r2) = bind-returns (fiber S rt k) _ (child, rt') r1 in
      let (made, e3, r3) = bind-returns (create_fiber S new_stack f _ _ rt) _ (child, rt') r2 in
      let (taken, e4, r4) = bind-returns (take_stack new_stack rt.stack_pool) _ made e3 in
      (taken.0, taken.1, e4)

  -- A system call that returned found no result of another one.
  pub could_call :
      (rounds : List (List Cqe)) (rt : Runtime S) (r : ℕ) (g : FiberState)
      (p : Progress IoResult (Runtime S))
      → rt.running_fiber ≡ some r
      → Has S rt r g
      → syscall S rounds rt ≡ returns p
      → g.is_cancelled ≡ true ⊎ g.syscall_result ≡ none
  unfolding syscall is_cancelled
  could_call rounds rt r g p run here e = elim (Bool-cases g.is_cancelled) [
    | inl yet ↦ inl yet
    | inr live ↦ elim (Option-cases g.syscall_result) [
      | inl empty ↦ inr empty
      | inr (z, there) ↦ absurd (ground (arith, run, here, live, there, e))
    ]
  ]

  pub could_resume :
      (rounds : List (List Cqe)) (rt : Runtime S) (r : ℕ) (g : FiberState)
      (p : Progress IoResult (Runtime S))
      → rt.running_fiber ≡ some r
      → Has S rt r g
      → syscall_resumed S rounds rt ≡ returns p
      → g.is_cancelled ≡ true ⊎ is_some g.syscall_result ≡ true
  unfolding syscall_resumed is_cancelled
  could_resume rounds rt r g p run here e = elim (Bool-cases g.is_cancelled) [
    | inl yet ↦ inl yet
    | inr live ↦ elim (Option-cases g.syscall_result) [
      | inl empty ↦ absurd (ground (arith, run, here, live, empty, e))
      | inr (z, there) ↦ inr (ground (arith, there))
    ]
  ]

  pub could_join :
      (rounds : List (List Cqe)) (k r : ℕ) (rt : Runtime S) (f g : FiberState)
      (p : Progress JoinResult (Runtime S))
      → rt.running_fiber ≡ some r
      → Has S rt r g
      → Has S rt k f
      → join_resumed S rounds k rt ≡ returns p
      → (f.is_completed ≡ true) ⊎ (g.is_cancelled ≡ true)
  unfolding join_resumed is_cancelled
  could_join rounds k r rt f g p run here there e = elim (Bool-cases f.is_completed) [
    | inl done ↦ inl done
    | inr open_yet ↦ elim (Bool-cases g.is_cancelled) [
      | inl yet ↦ inr yet
      | inr live ↦ absurd (ground (arith, run, here, there, live, open_yet, e))
    ]
  ]
