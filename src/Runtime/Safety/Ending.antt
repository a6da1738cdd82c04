-- ===== src/Runtime/Safety/Ending.antt =====
-- The end of a spawned fiber's closure in src/runtime/mod.rs on a sound runtime.
use native.Mathlib.Decide.{ℕ_discrete}
use mathlib.Core.Path.{subst}
use uringy.Common.{
  ℕ, suc, ◌≡◌, refl, ◌≢◌, true, Option, some, List, [], ◌∷◌, Elem, returns, arith, ◌==◌,
  if◌then◌else◌,
}
use uringy.Runtime.Slab.{Slab}
use uringy.Runtime.State.{waiting, Output, output, FiberState, Runtime, write_union}
use uringy.Runtime.Scheduler.{Cqe}
use uringy.Runtime.Fibers.{complete, spawn_returned, is_err}
use uringy.Runtime.Safety.{Has, IsRunning}
use uringy.Runtime.Safety.Frame.{Frame, Frame-IsLinked, Frame-set, set-IsSound}
use uringy.Runtime.Safety.Waking.{Continues, AreLinked}
use uringy.Runtime.Safety.Departure.{IsDone}
use uringy.Runtime.Safety.Parting.{AreOthers, depart-Continues}
use uringy.Runtime.Safety.Parking.{wait-Continues}

module _ (S : Slab FiberState) where
  AreOthers-AreLinked :
      (rt : Runtime S) (r : ℕ) (rounds : List (List Cqe))
      → AreOthers S rt r rounds
      → AreLinked S rt rounds
  AreOthers-AreLinked rt r [] a = tt
  AreOthers-AreLinked rt r (cqes ∷ rounds) (now, later) =
      ((λ k m. let (l, ne) = now k m in l), AreOthers-AreLinked rt r rounds later)

  AreOthers-Frame :
      {rt rt' : Runtime S} (r : ℕ)
      → Frame S rt rt'
      → (rounds : List (List Cqe)) → AreOthers S rt r rounds
      → AreOthers S rt' r rounds
  AreOthers-Frame r fr [] a = tt
  AreOthers-Frame r fr (cqes ∷ rounds) (now, later) = (
    (λ k m. let (l, ne) = now k m in (Frame-IsLinked S fr k l, ne)),
    AreOthers-Frame r fr rounds later,
  )

  -- The output is stored, and the fiber has completed.
  pub complete-IsRunning :
      (result : Output) (rt : Runtime S) (r : ℕ) (g : FiberState)
      → IsRunning S rt r
      → Has S rt r g
      → (rt1 : Runtime S) × (complete S result rt ≡ returns rt1)
        × IsRunning S rt1 r
        × Frame S rt rt1
        × Has S rt1 r (record g { is_completed = true; is_cancelled = true })
        × (rt1.ready_fibers ≡ rt.ready_fibers)
        × ((k : ℕ) (f : FiberState) (w : Option ℕ)
            → Has S rt1 k f
            → f.join_handle ≡ waiting w
            → (h : FiberState) × Has S rt k h × (h.join_handle ≡ waiting w))
  unfolding complete
  complete-IsRunning result rt r g v here =
      let g1 : FiberState = record g { is_completed = true; is_cancelled = true } in
      let rt0 : Runtime S = record rt { fibers = S.set rt.fibers r g1 } in
      let rt1 : Runtime S = record rt0 { memory = write_union rt.memory g.stack (output result) } in
      let look : (k : ℕ) → S.get rt1.fibers k ≡ (if k == r then some g1 else S.get rt.fibers k) =
        λ k. S.get-set rt.fibers r g1 g k here in
      let fr : Frame S rt rt1 = Frame-set S r g g1 refl here refl refl in
      (
        rt1,
        ground (arith, v.runs, here, look r),
        record {
          sound = set-IsSound S rt rt1 r g g1 refl here refl refl refl v.sound v.sound.ready_linked;
          runs = v.runs;
          linked = Frame-IsLinked S fr r v.linked;
        },
        fr,
        ground (arith, look r),
        refl,
        (λ k f w h e. waits k f w h e (look k) (ℕ_discrete k r)),
      )
    where
      waits :
          (k : ℕ) (f : FiberState) (w : Option ℕ)
          → S.get (S.set rt.fibers r (record g { is_completed = true; is_cancelled = true })) k
            ≡ some f
          → f.join_handle ≡ waiting w
          → S.get (S.set rt.fibers r (record g { is_completed = true; is_cancelled = true })) k ≡ (
              if k == r
              then some (record g { is_completed = true; is_cancelled = true })
              else S.get rt.fibers k)
          → Dec (k ≡ r)
          → (h : FiberState) × Has S rt k h × (h.join_handle ≡ waiting w)
      waits k f w h e look (yes same) = (g, ground (arith, here, same), ground (arith, h, look, e))
      waits k f w h e look (no ne) = (f, ground (arith, h, look), e)

  -- When the closure of a spawned fiber has returned or panicked, nothing else panics on a deep enough
  -- stack: the fiber waits for its children, or leaves.
  pub spawn_returned-Continues :
      (r : ℕ) (rounds : List (List Cqe)) (result : Output) (rt : Runtime S) (g : FiberState)
      → (v : IsRunning S rt r) → Has S rt r g
      → r ≢ 0
      → (Elem r rt.ready_fibers → ⊥)
      → ((k : ℕ) (f : FiberState) → Has S rt k f → f.join_handle ≢ waiting (some r))
      → AreOthers S rt r rounds
      → (fuel : ℕ) × (next : Option (Runtime S)) × (spawn_returned S fuel rounds result rt
          ≡ returns next)
        × Continues S next
  unfolding spawn_returned
  spawn_returned-Continues r rounds result rt g v here not_root not_ready unawaited a =
      let (rt1, e, v1, fr, here1, queue, waits) = complete-IsRunning result rt r g v here in
      go rt1 e v1 here1 (λ m. not_ready (subst (Elem r) queue m))
        (λ k f h w. let (h', there, e') = waits k f (some r) h w in unawaited k h' there e')
        (AreOthers-Frame r fr rounds a) g.children refl
    where
      g1 : FiberState
      g1 = record g { is_completed = true; is_cancelled = true }

      go :
          (rt1 : Runtime S)
          → complete S result rt ≡ returns rt1
          → IsRunning S rt1 r
          → Has S rt1 r g1
          → (Elem r rt1.ready_fibers → ⊥)
          → ((k : ℕ) (f : FiberState) → Has S rt1 k f → f.join_handle ≢ waiting (some r))
          → AreOthers S rt1 r rounds
          → (children : List ℕ) → g.children ≡ children
          → (fuel : ℕ) × (next : Option (Runtime S)) × (spawn_returned S fuel rounds result rt
              ≡ returns next)
            × Continues S next
      go rt1 e v1 here1 idle alone others [] none_left =
          let d : IsDone S rt1 r g1 = record {
            there = here1;
            not_root = not_root;
            childless = none_left;
            cancelled = refl;
            not_ready = idle;
            unawaited = alone;
          } in
          let fuel : ℕ = suc (v1.sound.tree.rank 0) in
          let (next, e2, goes) =
            depart-Continues S fuel r rounds (is_err result) rt1 g1 v1 d (omega arith) others in
          (fuel, next, ground (arith, e, v1.runs, here1, none_left, e2), goes)
      go rt1 e v1 here1 idle alone others (c ∷ cs) some_left =
          let (next, e2, goes) =
            wait-Continues S rounds rt1 r v1 (AreOthers-AreLinked rt1 r rounds others) in
          (0, next, ground (arith, e, v1.runs, here1, some_left, e2), goes)
