-- ===== src/Runtime/Safety/Calling.antt =====
-- System calls of src/runtime/mod.rs on sound runtimes.
use uringy.Common.{
  ℕ, ◌≡◌, refl, ◌⊎◌, inl, inr, Bool, true, false, none, some, List, [], ◌∷◌, ◌++◌, returns, arith,
  is_some, Option-cases, err,
}
use uringy.Errors.{cancelled}
use uringy.Common.Int.{ℤ}
use uringy.Runtime.Slab.{Slab}
use uringy.Runtime.State.{Request, issue, cancel_syscall, FiberState, Runtime}
use uringy.Runtime.Scheduler.{Cqe}
use uringy.Runtime.Cancel.{is_cancelled}
use uringy.Runtime.Fibers.{Progress, finished, suspended}
use uringy.Runtime.Calls.{IoResult, classify, syscall, syscall_resumed, read_syscall_result}
use uringy.Runtime.Safety.{Has, IsRunning}
use uringy.Runtime.Safety.Frame.{Frame, Frame-IsLinked, Frame-set, same-IsSound, set-IsSound}
use uringy.Runtime.Safety.Waking.{Goes, AreLinked}
use uringy.Runtime.Safety.Parking.{wait-Continues}

module _ (S : Slab FiberState) where
  -- The kernel interface has been asked for something.
  requested-IsRunning :
      (kernel : List Request) (rt : Runtime S) (r : ℕ)
      → IsRunning S rt r
      → IsRunning S (record rt { kernel = kernel }) r
  requested-IsRunning kernel rt r v = record {
    sound = same-IsSound S rt (record rt { kernel = kernel }) refl v.sound v.sound.ready_linked;
    runs = v.runs;
    linked = v.linked;
  }

  -- A system call does not panic if the fiber has no result of another one.
  pub syscall-Goes :
      (rounds : List (List Cqe)) (rt : Runtime S) (r : ℕ) (g : FiberState)
      → IsRunning S rt r
      → Has S rt r g
      → g.is_cancelled ≡ true ⊎ g.syscall_result ≡ none
      → AreLinked S rt rounds
      → (p : Progress IoResult (Runtime S)) × (syscall S rounds rt ≡ returns p) × Goes S r p
  unfolding syscall is_cancelled Goes
  syscall-Goes rounds rt r g v here why a = go g.is_cancelled refl
    where
      go :
          (b : Bool)
          → g.is_cancelled ≡ b
          → (p : Progress IoResult (Runtime S)) × (syscall S rounds rt ≡ returns p) × Goes S r p
      go true e = (finished (err cancelled) rt, ground (arith, v.runs, here, e), v)
      go false e =
          let rt1 : Runtime S = record rt { kernel = rt.kernel ++ (issue r ∷ []) } in
          let (next, e2, goes) =
            wait-Continues S rounds rt1 r (requested-IsRunning rt1.kernel rt r v) a in
          let empty : g.syscall_result ≡ none = ground (arith, why, e) in
          (suspended next, ground (arith, v.runs, here, e, empty, e2), goes)

  read_syscall_result-Goes :
      (rt : Runtime S) (r : ℕ) (g : FiberState) (z : ℤ)
      → IsRunning S rt r
      → Has S rt r g
      → g.syscall_result ≡ some z
      → (p : Progress IoResult (Runtime S)) × (read_syscall_result S rt ≡ returns p) × Goes S r p
  unfolding read_syscall_result Goes
  read_syscall_result-Goes rt r g z v here result =
      let g1 : FiberState = record g { syscall_result = none } in
      let rt1 : Runtime S = record rt { fibers = S.set rt.fibers r g1 } in
      let fr : Frame S rt rt1 = Frame-set S r g g1 refl here refl refl in
      (
        finished (classify z) rt1,
        ground (arith, v.runs, here, result),
        record {
          sound = set-IsSound S rt rt1 r g g1 refl here refl refl refl v.sound v.sound.ready_linked;
          runs = v.runs;
          linked = Frame-IsLinked S fr r v.linked;
        },
      )

  -- Nor when the fiber runs again, if the result is there or the fiber has been cancelled.
  pub syscall_resumed-Goes :
      (rounds : List (List Cqe)) (rt : Runtime S) (r : ℕ) (g : FiberState)
      → IsRunning S rt r
      → Has S rt r g
      → g.is_cancelled ≡ true ⊎ is_some g.syscall_result ≡ true
      → AreLinked S rt rounds
      → (p : Progress IoResult (Runtime S)) × (syscall_resumed S rounds rt ≡ returns p) × Goes S r p
  unfolding syscall_resumed is_cancelled Goes
  syscall_resumed-Goes rounds rt r g v here why a = elim (Option-cases g.syscall_result) [
    | inl empty ↦
        let rt1 : Runtime S = record rt { kernel = rt.kernel ++ (cancel_syscall r ∷ []) } in
        let (next, e2, goes) =
          wait-Continues S rounds rt1 r (requested-IsRunning rt1.kernel rt r v) a in
        (suspended next, ground (arith, v.runs, here, empty, why, e2), goes)
    | inr (z, result) ↦
        let (p, e, goes) = read_syscall_result-Goes rt r g z v here result in
        (p, ground (arith, v.runs, here, result, e), goes)
  ]
