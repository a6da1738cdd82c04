-- ===== src/Runtime/Safety/Joining.antt =====
-- Join handles of src/runtime/mod.rs on sound runtimes.
use mathlib.Core.Path.{subst}
use uringy.Common.{
  ℕ, ◌≡◌, refl, ap, ◌∙◌, inl, inr, Bool, true, false, not, ◌&&◌, Option, none, some, List, ◌∷◌,
  Elem, returns, arith, ◌==◌, if◌then◌else◌, err,
}
use uringy.Errors.{cancelled}
use uringy.Runtime.Slab.{Slab}
use uringy.Runtime.State.{waiting, dropped, Output, output, FiberState, Runtime}
use uringy.Runtime.Scheduler.{Cqe, park}
use uringy.Runtime.Cancel.{is_cancelled}
use uringy.Runtime.Fibers.{Progress, finished, suspended}
use uringy.Runtime.Join.{
  JoinResult, to_join_result, drop_handle, read_output, return_joined, return_output,
  await_completion, join,
}
use uringy.Runtime.Safety.{Has, IsLinked, IsSound, IsRunning}
use uringy.Runtime.Safety.Frame.{
  Frame, Frame-IsLinked, Frame-IsLinked_back, Frame-set, set-IsSound_waits,
}
use uringy.Runtime.Safety.Waking.{
  Goes, Continues, Resumes-Continues, AreLinked, AreLinked-Frame, park-Resumes,
}
use uringy.Runtime.Safety.Leaving.{Left, Loses-none, Left-IsSound, Left-IsLinked}

module _ (S : Slab FiberState) where
  -- Taking a fiber that has left out of the slab.
  removed-Left :
      (rt rt' : Runtime S) (k : ℕ) (f : FiberState)
      → IsSound S rt
      → Has S rt k f
      → (IsLinked S rt k → ⊥)
      → ((j : ℕ) → S.get rt'.fibers j ≡ (if j == k then none else S.get rt.fibers j))
      → rt'.ready_fibers ≡ rt.ready_fibers
      → Left S rt rt' k
  removed-Left rt rt' k f v there away look queue = record {
    not_root = λ e. let (g, h, top) = v.tree.root in away (g, ap (S.get rt.fibers) e ∙ h, inl e);
    childless = λ g c h m. away (v.tree.parents_linked k c g h m);
    unawaited = λ j g h ne e. away (v.joiner_linked j k g h e);
    kept = λ j g ne h. (
      g,
      ground (arith, look j, h),
      Loses-none S k g g
          (λ m. away (f, there, inr (j, g, v.tree.parent_of j k g f h m there, h, m))) refl refl
          refl,
    );
    absent = λ j ne h. ground (arith, look j, h);
    gone = λ g h. absurd (ground (arith, look k, h));
    ready = λ j m.
        let l : IsLinked S rt j = v.ready_linked j (subst (Elem j) queue m) in
        (l, λ e. away (subst (IsLinked S rt) e l));
  }

  -- A handle that is dropped: the runtime stays sound, if the fiber has left in case it has completed.
  pub drop_handle-IsRunning :
      (k r : ℕ) (rt : Runtime S) (f : FiberState)
      → IsRunning S rt r
      → Has S rt k f
      → (f.is_completed ≡ true → IsLinked S rt k → ⊥)
      → (rt' : Runtime S) × (drop_handle S k rt ≡ returns rt')
        × IsRunning S rt' r
        × (rt'.ready_fibers ≡ rt.ready_fibers)
  unfolding drop_handle
  drop_handle-IsRunning k r rt f v there away = go f.is_completed refl
    where
      f1 : FiberState
      f1 = record f { join_handle = dropped }

      rt1 : Runtime S
      rt1 = record rt { fibers = S.set rt.fibers k f1 }

      look : (j : ℕ) → S.get rt1.fibers j ≡ (if j == k then some f1 else S.get rt.fibers j)
      look j = S.get-set rt.fibers k f1 f j there

      fr : Frame S rt rt1
      fr = Frame-set S k f f1 refl there refl refl

      v1 : IsSound S rt1
      v1 =
          set-IsSound_waits S rt rt1 k f f1 refl there refl refl (λ w e. absurd (ground (arith, e)))
            v.sound v.sound.ready_linked

      l1 : IsLinked S rt1 r
      l1 = Frame-IsLinked S fr r v.linked

      go :
          (b : Bool)
          → f.is_completed ≡ b
          → (rt' : Runtime S) × (drop_handle S k rt ≡ returns rt')
            × IsRunning S rt' r
            × (rt'.ready_fibers ≡ rt.ready_fibers)
      go false e = (
        rt1,
        ground (arith, there, look k, e),
        record { sound = v1; runs = v.runs; linked = l1 },
        refl,
      )
      go true e =
          let rt2 : Runtime S = record rt1 {
            stack_pool = f.stack ∷ rt.stack_pool;
            fibers = S.remove rt1.fibers k;
          } in
          let gone : IsLinked S rt1 k → ⊥ = λ l. away e (Frame-IsLinked_back S fr k l) in
          let left : Left S rt1 rt2 k =
            removed-Left rt1 rt2 k f1 v1 (ground (arith, look k)) gone
              (λ j. S.get-remove rt1.fibers k j) refl in
          (
            rt2,
            ground (arith, there, look k, e),
            record {
              sound = Left-IsSound S left v1;
              runs = v.runs;
              linked = Left-IsLinked S left r (λ same. gone (subst (IsLinked S rt1) same l1)) l1;
            },
            refl,
          )

  -- Fiber `k` can be joined: once it has completed, it has left, and its output is on its stack.
  pub record IsJoinable (rt : Runtime S) (k : ℕ) (f : FiberState) : Type 0 where
    pub there : Has S rt k f
    pub left : f.is_completed ≡ true → IsLinked S rt k → ⊥
    pub written : f.is_completed ≡ true → (o : Output) × (rt.memory f.stack ≡ some (output o))

  pub return_output-Goes :
      (k r : ℕ) (rt : Runtime S) (f : FiberState)
      → IsRunning S rt r
      → IsJoinable rt k f
      → f.is_completed ≡ true
      → (p : Progress JoinResult (Runtime S)) × (return_output S k rt ≡ returns p) × Goes S r p
  unfolding return_output read_output return_joined Goes
  return_output-Goes k r rt f v j done =
      let (o, written) = j.written done in
      let (rt', e, v', queue) = drop_handle-IsRunning k r rt f v j.there j.left in
      (finished (to_join_result o) rt', ground (arith, j.there, written, e), v')

  pub return_cancelled-Goes :
      (k r : ℕ) (rt : Runtime S) (f : FiberState)
      → IsRunning S rt r
      → IsJoinable rt k f
      → (p : Progress JoinResult (Runtime S)) × (return_joined S k (err cancelled) rt ≡ returns p)
        × Goes S r p
  unfolding return_joined Goes
  return_cancelled-Goes k r rt f v j =
      let (rt', e, v', queue) = drop_handle-IsRunning k r rt f v j.there j.left in
      (finished (err cancelled) rt', rw e refl, v')

  await-Resumes :
      (rounds : List (List Cqe)) (k r : ℕ) (rt : Runtime S) (f : FiberState)
      → IsRunning S rt r
      → Has S rt k f
      → f.is_completed ≡ false
      → AreLinked S rt rounds
      → (next : Option (Runtime S)) × (park S (await_completion S k) rounds rt ≡ returns next)
        × Continues S next
  unfolding await_completion
  await-Resumes rounds k r rt f v there open_yet a =
      let f1 : FiberState = record f { join_handle = waiting (some r) } in
      let rt1 : Runtime S = record rt { fibers = S.set rt.fibers k f1 } in
      let fr : Frame S rt rt1 = Frame-set S k f f1 refl there refl refl in
      let v1 : IsSound S rt1 =
        set-IsSound_waits S rt rt1 k f f1 refl there refl refl
          (λ w e. inr (r, ground (arith, e), v.linked)) v.sound v.sound.ready_linked in
      let (next, e, resumes) =
        park-Resumes S (await_completion S k) rounds rt rt1 r v.runs
          (ground (arith, there, open_yet)) v1 (Frame-IsLinked S fr r v.linked)
          (AreLinked-Frame S fr rounds a) in
      (next, e, Resumes-Continues S rt1 next resumes)

  -- Joining a fiber does not panic: the running fiber goes on in a sound runtime, or is suspended.
  pub join-Goes :
      (rounds : List (List Cqe)) (k r : ℕ) (rt : Runtime S) (f : FiberState)
      → IsRunning S rt r
      → IsJoinable rt k f
      → AreLinked S rt rounds
      → (p : Progress JoinResult (Runtime S)) × (join S rounds k rt ≡ returns p) × Goes S r p
  unfolding join is_cancelled Goes
  join-Goes rounds k r rt f v j a =
      go f.is_completed refl (g.is_cancelled && not f.is_cancelled) refl
    where
      g : FiberState
      g = v.linked.0

      go :
          (b : Bool)
          → f.is_completed ≡ b
          → (c : Bool) → (g.is_cancelled && not f.is_cancelled) ≡ c
          → (p : Progress JoinResult (Runtime S)) × (join S rounds k rt ≡ returns p) × Goes S r p
      go true e c e2 =
          let (p, e3, goes) = return_output-Goes k r rt f v j e in
          (p, ground (arith, j.there, v.runs, v.linked.1, e, e3), goes)
      go false e true e2 =
          let (p, e3, goes) = return_cancelled-Goes k r rt f v j in
          (p, ground (arith, j.there, v.runs, v.linked.1, e, e2, e3), goes)
      go false e false e2 =
          let (next, e3, goes) = await-Resumes rounds k r rt f v j.there e a in
          (suspended next, ground (arith, j.there, v.runs, v.linked.1, e, e2, e3), goes)
