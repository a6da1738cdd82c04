-- ===== src/Runtime/Safety/Parking.antt =====
-- The operations of src/runtime/mod.rs that park, on sound runtimes: `yield_now`, the rest of `join`,
-- system calls, and the end of a fiber that waits for its children.
use uringy.Common.{ℕ, ◌≡◌, refl, ◌⊎◌, Bool, true, false, Option, List, Panics, returns, arith}
use uringy.Runtime.Slab.{Slab}
use uringy.Runtime.State.{FiberState, Runtime}
use uringy.Runtime.Scheduler.{Cqe, park, yield_now, schedule_with}
use uringy.Runtime.Cancel.{is_cancelled}
use uringy.Runtime.Fibers.{Progress, suspended}
use uringy.Runtime.Join.{JoinResult, join_resumed, join_final}
use uringy.Runtime.Safety.{Has, IsSound, IsRunning}
use uringy.Runtime.Safety.Frame.{Frame, Frame-same, Frame-IsLinked}
use uringy.Runtime.Safety.Waking.{
  Goes, Continues, Resumes-Continues, AreLinked, AreLinked-Frame, park-Resumes,
  schedule_with-IsSound, schedule_with-fibers,
}
use uringy.Runtime.Safety.Joining.{IsJoinable, return_output-Goes, return_cancelled-Goes}

module _ (S : Slab FiberState) where
  -- Parking with a callback that leaves the fibers.
  park-Continues :
      (schedule : ℕ → Runtime S → Panics (Runtime S)) (rounds : List (List Cqe))
      (rt rt1 : Runtime S) (r : ℕ)
      → IsRunning S rt r
      → schedule r rt ≡ returns rt1
      → IsSound S rt1
      → rt1.fibers ≡ rt.fibers
      → AreLinked S rt rounds
      → (next : Option (Runtime S)) × (park S schedule rounds rt ≡ returns next) × Continues S next
  park-Continues schedule rounds rt rt1 r v scheduled v1 same a =
      let fr : Frame S rt rt1 = Frame-same S same in
      let (next, e, resumes) =
        park-Resumes S schedule rounds rt rt1 r v.runs scheduled v1 (Frame-IsLinked S fr r v.linked)
          (AreLinked-Frame S fr rounds a) in
      (next, e, Resumes-Continues S rt1 next resumes)

  pub yield_now-Continues :
      (rounds : List (List Cqe)) (rt : Runtime S) (r : ℕ)
      → IsRunning S rt r
      → AreLinked S rt rounds
      → (next : Option (Runtime S)) × (yield_now S rounds rt ≡ returns next) × Continues S next
  unfolding yield_now
  yield_now-Continues rounds rt r v a =
      park-Continues (λ k rt'. returns (schedule_with S k rt')) rounds rt (schedule_with S r rt) r v
        refl (schedule_with-IsSound S r rt v.sound v.linked) (schedule_with-fibers S r rt) a

  -- Parking with no callback.
  pub wait-Continues :
      (rounds : List (List Cqe)) (rt : Runtime S) (r : ℕ)
      → IsRunning S rt r
      → AreLinked S rt rounds
      → (next : Option (Runtime S)) × (park S (λ _ x. returns x) rounds rt ≡ returns next)
        × Continues S next
  wait-Continues rounds rt r v a =
      park-Continues (λ _ x. returns x) rounds rt rt r v refl v.sound refl a

  -- A joiner that runs again, once the fiber has completed or if it has been cancelled itself.
  pub join_resumed-Goes :
      (rounds : List (List Cqe)) (k r : ℕ) (rt : Runtime S) (f g : FiberState)
      → IsRunning S rt r
      → IsJoinable S rt k f
      → Has S rt r g
      → (f.is_completed ≡ true) ⊎ (g.is_cancelled ≡ true)
      → AreLinked S rt rounds
      → (p : Progress JoinResult (Runtime S)) × (join_resumed S rounds k rt ≡ returns p)
        × Goes S r p
  unfolding join_resumed is_cancelled Goes
  join_resumed-Goes rounds k r rt f g v j here why a = go f.is_completed refl f.is_cancelled refl
    where
      go :
          (b : Bool)
          → f.is_completed ≡ b
          → (c : Bool) → f.is_cancelled ≡ c
          → (p : Progress JoinResult (Runtime S)) × (join_resumed S rounds k rt ≡ returns p)
            × Goes S r p
      go true e c e2 =
          let (p, e3, goes) = return_output-Goes S k r rt f v j e in
          (p, ground (arith, j.there, v.runs, here, e, e3), goes)
      go false e false e2 =
          let (p, e3, goes) = return_cancelled-Goes S k r rt f v j in
          (p, ground (arith, j.there, v.runs, here, e, e2, e3, why), goes)
      go false e true e2 =
          let (next, e3, goes) = wait-Continues rounds rt r v a in
          (suspended next, ground (arith, j.there, v.runs, here, e, e2, e3, why), goes)

  pub join_final-Goes :
      (k r : ℕ) (rt : Runtime S) (f : FiberState)
      → IsRunning S rt r
      → IsJoinable S rt k f
      → f.is_completed ≡ true
      → (p : Progress JoinResult (Runtime S)) × (join_final S k rt ≡ returns p) × Goes S r p
  unfolding join_final
  join_final-Goes k r rt f v j e = return_output-Goes S k r rt f v j e
