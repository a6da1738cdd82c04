-- ===== src/Runtime/Safety/Departure.antt =====
-- The end of `spawn_trampoline` of src/runtime/mod.rs on a sound runtime: the joiner is woken or the
-- root cancelled, the parent loses the child, and the next fiber runs.
use mathlib.Core.Path.{subst}
use uringy.Common.{
  ℕ, ◌<◌, ◌≡◌, refl, sym, ap, ◌∙◌, ◌≢◌, inl, inr, Bool, true, false, none, some, [], Elem, returns,
  arith, ◌==◌, if◌then◌else◌,
}
use uringy.Runtime.Slab.{Slab}
use uringy.Runtime.State.{JoinHandleState, unused, waiting, dropped, FiberState, Runtime}
use uringy.Runtime.Scheduler.{schedule_with}
use uringy.Runtime.Cancel.{cancel, nearest_contained}
use uringy.Runtime.Fibers.{wake_joiner}
use uringy.Runtime.Safety.{Has, IsLinked, IsSound, IsRunning}
use uringy.Runtime.Safety.Frame.{Frame, Frame-same, Frame-set, Frame-IsLinked_back}
use uringy.Runtime.Safety.Waking.{Elem-schedule_with, schedule_with-fibers}
use uringy.Runtime.Safety.Cancelling.{cancel-IsSound, SameHandles}

module _ (S : Slab FiberState) where
  -- Fiber `r` has completed and may leave: it is not the root, has no children, and nothing is left
  -- that could run it again.
  pub record IsDone (rt : Runtime S) (r : ℕ) (f : FiberState) : Type 0 where
    pub there : Has S rt r f
    pub not_root : r ≢ 0
    pub childless : f.children ≡ []
    pub cancelled : f.is_cancelled ≡ true
    pub not_ready : Elem r rt.ready_fibers → ⊥
    pub unawaited : (k : ℕ) (g : FiberState) → Has S rt k g → g.join_handle ≢ waiting (some r)

  -- The joiner of `r` has been woken, or the root cancelled.
  pub record Woken (rt rt1 : Runtime S) (r : ℕ) : Type 0 where
    pub frame : Frame S rt rt1
    pub handles :
        (k : ℕ) (f f1 : FiberState)
        → k ≢ r
        → Has S rt k f
        → Has S rt1 k f1
        → f1.join_handle ≡ f.join_handle
    pub own : (f1 : FiberState) (j : ℕ) → Has S rt1 r f1 → f1.join_handle ≢ waiting (some j)
    pub ready : (k : ℕ) → Elem k rt1.ready_fibers → IsLinked S rt k × (k ≢ r)

  -- The joiner has not been woken through the fiber, whose join handle and whose place in the ready
  -- queue are as before.
  Woken-elsewhere :
      {rt rt1 : Runtime S} {r : ℕ} {f : FiberState}
      → IsDone rt r f
      → IsSound S rt1
      → Frame S rt rt1
      → SameHandles S rt rt1
      → (Elem r rt1.ready_fibers → Elem r rt.ready_fibers)
      → ((j : ℕ) → f.join_handle ≢ waiting (some j))
      → Woken rt rt1 r
  Woken-elsewhere {rt} {rt1} {r} {f} d v1 fr handles ready free = record {
    frame = fr;
    handles = λ k g g1 ne h h1. handles k g g1 h h1;
    own = λ f1 j h e. free j (sym (handles r f f1 d.there h) ∙ e);
    ready = λ k m. (
      Frame-IsLinked_back S fr k (v1.ready_linked k m),
      λ e. d.not_ready (ready (subst (λ i. Elem i rt1.ready_fibers) e m)),
    );
  }

  stay :
      {rt : Runtime S} {r : ℕ} {f : FiberState}
      → IsRunning S rt r
      → IsDone rt r f
      → ((j : ℕ) → f.join_handle ≢ waiting (some j))
      → Woken rt rt r
  stay {rt} v d free =
      Woken-elsewhere d v.sound (Frame-same S refl) (λ k g g1 h h1. ground (arith, h, h1)) (λ m. m)
        free

  cancel_root :
      (fuel r : ℕ) (rt : Runtime S) (f : FiberState)
      → (v : IsRunning S rt r) → IsDone rt r f
      → v.sound.tree.rank 0 < fuel
      → ((j : ℕ) → f.join_handle ≢ waiting (some j))
      → (rt1 : Runtime S) × (cancel S fuel 0 rt ≡ returns rt1) × Woken rt rt1 r
  cancel_root fuel r rt f v d deep free =
      let (g, there, top) = v.sound.tree.root in
      let (rt1, e, v1, run, fr, handles, from) =
        cancel-IsSound S fuel 0 r rt v.sound v.runs (g, there, inl refl) deep in
      (
        rt1,
        e,
        Woken-elsewhere d v1 fr handles
            (λ m. elim (from r m) [
              | inl old ↦ old
              | inr (h, has, live) ↦ absurd (ground (arith, d.cancelled, d.there, has, live))
            ])
            free,
      )

  pub wake_joiner-Woken :
      (fuel r : ℕ) (result_is_error : Bool) (rt : Runtime S) (f : FiberState) (j : JoinHandleState)
      → (v : IsRunning S rt r) → IsDone rt r f
      → v.sound.tree.rank 0 < fuel
      → f.join_handle ≡ j
      → (rt1 : Runtime S) × (wake_joiner S fuel r result_is_error j rt ≡ returns rt1)
        × Woken rt rt1 r
  unfolding wake_joiner nearest_contained
  wake_joiner-Woken fuel r b rt f (waiting none) v d deep e =
      absurd (v.sound.unjoined r f v.linked d.there e)
  wake_joiner-Woken fuel r b rt f (waiting (some j)) v d deep e =
      let f1 : FiberState = record f { join_handle = waiting none } in
      let rt' : Runtime S = record rt { fibers = S.set rt.fibers r f1 } in
      let rt1 : Runtime S = schedule_with S j rt' in
      let look : (k : ℕ) → S.get rt1.fibers k ≡ (if k == r then some f1 else S.get rt.fibers k) =
        λ k.
          ap (λ s. S.get s k) (schedule_with-fibers S j rt')
          ∙ S.get-set rt.fibers r f1 f k d.there in
      (
        rt1,
        ground (arith, d.there),
        record {
          frame = Frame-set S r f f1 (schedule_with-fibers S j rt') d.there refl refl;
          handles = λ k g g1 ne h h1. ground (arith, h, h1, look k);
          own = λ g i h same. ground (arith, h, look r);
          ready = λ k m. elim (Elem-schedule_with S j rt' k m) [
            | inl old ↦ (
              v.sound.ready_linked k old,
              λ same. d.not_ready (subst (λ i. Elem i rt.ready_fibers) same old),
            )
            | inr same ↦ (
              subst (IsLinked S rt) (sym same) (v.sound.joiner_linked r j f d.there e),
              λ other. d.unawaited r f d.there (e ∙ ap (λ i. waiting (some i)) (sym same ∙ other)),
            )
          ];
        },
      )
  wake_joiner-Woken fuel r true rt f unused v d deep e =
      cancel_root fuel r rt f v d deep (λ j. ground arith)
  wake_joiner-Woken fuel r true rt f dropped v d deep e =
      cancel_root fuel r rt f v d deep (λ j. ground arith)
  wake_joiner-Woken fuel r false rt f unused v d deep e = (rt, refl, stay v d (λ j. ground arith))
  wake_joiner-Woken fuel r false rt f dropped v d deep e = (rt, refl, stay v d (λ j. ground arith))
