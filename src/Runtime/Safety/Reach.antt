-- ===== src/Runtime/Safety/Reach.antt =====
-- Every runtime of src/runtime/mod.rs that is reached is sound.
use mathlib.Core.Path.{subst}
use uringy.Common.{
  ℕ, suc, ◌+◌, ◌≡◌, refl, sym, ◌≢◌, Bool, true, Option, none, some, List, [], ◌∷◌, Elem, Panics,
  returns, panics, arith,
}
use uringy.Runtime.Slab.{Slab}
use uringy.Runtime.State.{waiting, Output, FiberState, Runtime}
use uringy.Runtime.Scheduler.{Cqe, yield_now, park}
use uringy.Runtime.Fibers.{
  complete, start_depart, Progress, finished, suspended, depart, spawn_returned, start_returned,
}
use uringy.Runtime.Fibers.Depth.{depart-deeper, spawn_returned-deeper}
use uringy.Runtime.Join.{join, join_resumed, join_final}
use uringy.Runtime.Calls.{syscall, syscall_resumed}
use uringy.Runtime.Safety.{Has, IsRunning}
use uringy.Runtime.Safety.Frame.{Frame-IsLinked}
use uringy.Runtime.Safety.Waking.{
  AreLinked, AreLinked-Frame, Goes, Continues, schedule_with-IsRunning,
}
use uringy.Runtime.Safety.Births.{spawn-IsRunning}
use uringy.Runtime.Safety.Cancelling.{cancelled-IsSound}
use uringy.Runtime.Safety.Departure.{IsDone}
use uringy.Runtime.Safety.Parting.{AreOthers, depart-Continues}
use uringy.Runtime.Safety.Joining.{join-Goes, drop_handle-IsRunning}
use uringy.Runtime.Safety.Parking.{
  yield_now-Continues, join_resumed-Goes, join_final-Goes, wait-Continues,
}
use uringy.Runtime.Safety.Calling.{syscall-Goes, syscall_resumed-Goes}
use uringy.Runtime.Safety.Ending.{complete-IsRunning, spawn_returned-Continues}
use uringy.Runtime.Safety.Returned.{had_stack, could_call, could_resume, could_join}
use uringy.Runtime.Safety.Steps.{
  Gives, Step, spawned, woken, cancels, yielded, parked, handle_dropped, called, call_resumed,
  joined, joiner_resumed, joiner_done, ended, departed, root_ended,
}

module _ (S : Slab FiberState) where
  -- Some fiber runs, in a sound runtime.
  abbrev pub Runs : Runtime S → Type 0
  Runs rt = (r : ℕ) × IsRunning S rt r

  Continues-Runs :
      (op : Panics (Option (Runtime S))) (next : Option (Runtime S)) (rt' : Runtime S)
      → op ≡ returns next
      → Continues S next
      → op ≡ returns (some rt')
      → Runs rt'
  unfolding Continues
  Continues-Runs op none rt' e goes e' = absurd (ground (arith, e, e'))
  Continues-Runs op (some rt) rt' e goes e' = subst Runs (ground (arith, e, e')) goes

  Goes-Runs :
      {A : Type 0} (r : ℕ) (op : Panics (Progress A (Runtime S))) (p q : Progress A (Runtime S))
      (rt' : Runtime S)
      → op ≡ returns p
      → Goes S r p
      → op ≡ returns q
      → Gives S q rt'
      → Runs rt'
  unfolding Goes Continues
  Goes-Runs r op (finished a rt) (finished b rt1) rt' e goes e' gives =
      subst Runs (ground (arith, e, e', gives)) (r, goes)
  Goes-Runs r op (finished a rt) (suspended next) rt' e goes e' gives =
      absurd (ground (arith, e, e'))
  Goes-Runs r op (suspended next) (finished a rt) rt' e goes e' gives =
      absurd (ground (arith, e, e'))
  Goes-Runs r op (suspended none) (suspended next) rt' e goes e' gives =
      absurd (ground (arith, e, e', gives))
  Goes-Runs r op (suspended (some rt)) (suspended next) rt' e goes e' gives =
      subst Runs (ground (arith, e, e', gives)) goes

  -- The root, once its closure has returned, waits like any fiber.
  root_ended-Runs :
      (rounds : List (List Cqe)) (result : Output) (rt rt' : Runtime S) (r : ℕ)
      → IsRunning S rt r
      → AreLinked S rt rounds
      → start_returned S rounds result rt ≡ returns (suspended (some rt'))
      → Runs rt'
  unfolding start_returned
  root_ended-Runs rounds result rt rt' r v a e =
      let (g, here, how) = v.linked in
      let (rt1, e1, v1, fr, here1, queue, waits) = complete-IsRunning S result rt r g v here in
      let (next, e2, goes) = wait-Continues S rounds rt1 r v1 (AreLinked-Frame S fr rounds a) in
      Continues-Runs (park S (λ _ x. returns x) rounds rt1) next rt' e2 goes
        (waited rt1 next e1 v1.runs here1 e2 (start_depart S rt1) refl g.children refl)
    where
      waited :
          (rt1 : Runtime S) (next : Option (Runtime S))
          → complete S result rt ≡ returns rt1
          → rt1.running_fiber ≡ some r
          → Has S rt1 r (record v.linked.0 { is_completed = true; is_cancelled = true })
          → park S (λ _ x. returns x) rounds rt1 ≡ returns next
          → (d : Panics (Output × Runtime S)) → start_depart S rt1 ≡ d
          → (children : List ℕ) → v.linked.0.children ≡ children
          → park S (λ _ x. returns x) rounds rt1 ≡ returns (some rt')
      waited rt1 next e1 run here e2 (returns (o, rt2)) ed [] ec =
          absurd (ground (arith, e, e1, run, here, ed, ec))
      waited rt1 next e1 run here e2 panics ed [] ec =
          absurd (ground (arith, e, e1, run, here, ed, ec))
      waited rt1 next e1 run here e2 d ed (c ∷ cs) ec = ground (arith, e, e1, run, here, e2, ec)

  -- The end of a spawned fiber, and its departure.
  ended-Runs :
      (fuel r : ℕ) (rounds : List (List Cqe)) (result : Output) (rt rt' : Runtime S)
      → IsRunning S rt r
      → r ≢ 0
      → (Elem r rt.ready_fibers → ⊥)
      → ((k : ℕ) (f : FiberState) → Has S rt k f → f.join_handle ≢ waiting (some r))
      → AreOthers S rt r rounds
      → spawn_returned S fuel rounds result rt ≡ returns (some rt')
      → Runs rt'
  ended-Runs fuel r rounds result rt rt' v not_root idle alone a e =
      let (g, here, how) = v.linked in
      let (fuel2, next, e2, goes) =
        spawn_returned-Continues S r rounds result rt g v here not_root idle alone a in
      let deep : ℕ = fuel + fuel2 in
      Continues-Runs (spawn_returned S deep rounds result rt) next rt'
        (spawn_returned-deeper S fuel2 deep rounds result rt next (omega arith) e2) goes
        (spawn_returned-deeper S fuel deep rounds result rt (some rt') (omega arith) e)

  departed-Runs :
      (fuel r : ℕ) (rounds : List (List Cqe)) (b : Bool) (rt rt' : Runtime S) (f : FiberState)
      → IsRunning S rt r
      → IsDone S rt r f
      → AreOthers S rt r rounds
      → depart S fuel rounds b rt ≡ returns (some rt')
      → Runs rt'
  departed-Runs fuel r rounds b rt rt' f v d a e =
      let deep : ℕ = fuel + suc (v.sound.tree.rank 0) in
      let (next, e2, goes) = depart-Continues S deep r rounds b rt f v d (omega arith) a in
      Continues-Runs (depart S deep rounds b rt) next rt' e2 goes
        (depart-deeper S fuel deep rounds b rt (some rt') (omega arith) e)

  -- A step leads from a sound runtime in which a fiber runs to another.
  pub Step-Runs : (rt rt' : Runtime S) (r : ℕ) → IsRunning S rt r → Step S rt rt' → Runs rt'
  Step-Runs rt rt' r v (spawned new_stack f child e) =
      let (base, pool, stack) = had_stack S new_stack f r child rt rt' v.runs e in
      let (child2, rt2, e2, v2, new, queue, l, fresh, written) =
        spawn-IsRunning S new_stack f base pool rt r v stack in
      subst Runs (ground (arith, e, e2)) (r, v2)
  Step-Runs rt rt' r v (woken k l e) = subst Runs e (r, schedule_with-IsRunning S k r rt v l)
  Step-Runs rt rt' r v (cancels fuel k l e) =
      let (v', run, fr) = cancelled-IsSound S fuel k r rt rt' v.sound v.runs l e in
      (r, record { sound = v'; runs = run; linked = Frame-IsLinked S fr r v.linked })
  Step-Runs rt rt' r v (yielded rounds a e) =
      let (next, e2, goes) = yield_now-Continues S rounds rt r v a in
      Continues-Runs (yield_now S rounds rt) next rt' e2 goes e
  Step-Runs rt rt' r v (parked rounds a e) =
      let (next, e2, goes) = wait-Continues S rounds rt r v a in
      Continues-Runs (park S (λ _ x. returns x) rounds rt) next rt' e2 goes e
  Step-Runs rt rt' r v (handle_dropped k f there away e) =
      let (rt2, e2, v2, queue) = drop_handle-IsRunning S k r rt f v there away in
      subst Runs (ground (arith, e, e2)) (r, v2)
  Step-Runs rt rt' r v (called rounds p a e gives) =
      let (g, here, how) = v.linked in
      let (q, e2, goes) =
        syscall-Goes S rounds rt r g v here (could_call S rounds rt r g p v.runs here e) a in
      Goes-Runs r (syscall S rounds rt) q p rt' e2 goes e gives
  Step-Runs rt rt' r v (call_resumed rounds p a e gives) =
      let (g, here, how) = v.linked in
      let (q, e2, goes) =
        syscall_resumed-Goes S rounds rt r g v here (could_resume S rounds rt r g p v.runs here e)
          a in
      Goes-Runs r (syscall_resumed S rounds rt) q p rt' e2 goes e gives
  Step-Runs rt rt' r v (joined rounds k f p j a e gives) =
      let (q, e2, goes) = join-Goes S rounds k r rt f v j a in
      Goes-Runs r (join S rounds k rt) q p rt' e2 goes e gives
  Step-Runs rt rt' r v (joiner_resumed rounds k f p j a e gives) =
      let (g, here, how) = v.linked in
      let (q, e2, goes) =
        join_resumed-Goes S rounds k r rt f g v j here
          (could_join S rounds k r rt f g p v.runs here j.there e) a in
      Goes-Runs r (join_resumed S rounds k rt) q p rt' e2 goes e gives
  Step-Runs rt rt' r v (joiner_done k f p j done e gives) =
      let (q, e2, goes) = join_final-Goes S k r rt f v j done in
      Goes-Runs r (join_final S k rt) q p rt' e2 goes e gives
  Step-Runs rt rt' r v (ended fuel k rounds result run not_root idle alone a e) =
      let same : k ≡ r = ground (arith, run, v.runs) in
      ended-Runs fuel k rounds result rt rt' (subst (IsRunning S rt) (sym same) v) not_root idle
        alone a e
  Step-Runs rt rt' r v (departed fuel k rounds b f run d a e) =
      let same : k ≡ r = ground (arith, run, v.runs) in
      departed-Runs fuel k rounds b rt rt' f (subst (IsRunning S rt) (sym same) v) d a e
  Step-Runs rt rt' r v (root_ended rounds result a e) = root_ended-Runs rounds result rt rt' r v a e
