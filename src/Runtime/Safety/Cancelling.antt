-- ===== src/Runtime/Safety/Cancelling.antt =====
-- Cancellation in src/runtime/mod.rs keeps a runtime sound.
use mathlib.Core.Path.{subst}
use uringy.Common.{
  ℕ, suc, ◌+◌, ◌≡◌, refl, sym, ◌∙◌, ◌⊎◌, inl, inr, ◌<◌, Option, some, Elem, returns, arith,
}
use uringy.Runtime.Slab.{Slab}
use uringy.Runtime.State.{FiberState, Runtime}
use uringy.Runtime.Cancel.{cancel}
use uringy.Runtime.Cancel.Forest.{Below, here, child, Keeps, IsCancelled, IsLive}
use uringy.Runtime.Cancel.Reach.{cancel_lem}
use uringy.Runtime.Cancel.Depth.{cancel-deeper}
use uringy.Runtime.Safety.{Has, IsLinked, IsTree, IsSound}
use uringy.Runtime.Safety.Frame.{Frame, Frame-IsSound}

module _ (S : Slab FiberState) where
  Keeps-Frame : {rt rt' : Runtime S} → Keeps S rt rt' → Frame S rt rt'
  Keeps-Frame p = record {
    kept = λ k f h.
        let (b, h', up) = p.forward k f h in (record f { is_cancelled = b }, h', refl, refl);
    absent = p.absent;
  }

  Below-IsLinked :
      {rt : Runtime S} {root k : ℕ}
      → IsTree S rt
      → IsLinked S rt root
      → Below S rt root k
      → IsLinked S rt k
  Below-IsLinked v l (here k) = l
  Below-IsLinked {rt} v l (child root c k f e m b) =
      let (g, h) = v.ranked.present root c f e m in
      Below-IsLinked v (g, h, inr (root, f, v.parent_of root c f g e m h, e, m)) b

  abbrev pub SameHandles : Runtime S → Runtime S → Type 0
  SameHandles rt rt' =
      (k : ℕ) (f f' : FiberState) → Has S rt k f → Has S rt' k f' → f'.join_handle ≡ f.join_handle

  Keeps-SameHandles : {rt rt' : Runtime S} → Keeps S rt rt' → SameHandles rt rt'
  Keeps-SameHandles keeps k f f' h h' =
      let (b, h2, up) = keeps.forward k f h in
      let same : ◌≡◌ {A = Option FiberState} (some f') (some (record f { is_cancelled = b })) =
        sym h' ∙ h2 in
      ground arith

  -- Cancelling a fiber that has not left returns, with fuel above the depth of the tree, in a sound
  -- runtime with the same tree, in which the same fiber runs.
  pub cancel-IsSound :
      (fuel root r : ℕ) (rt : Runtime S)
      → (v : IsSound S rt) → rt.running_fiber ≡ some r
      → IsLinked S rt root
      → v.tree.rank root < fuel
      → (rt' : Runtime S) × (cancel S fuel root rt ≡ returns rt')
        × IsSound S rt'
        × (rt'.running_fiber ≡ some r)
        × Frame S rt rt'
        × SameHandles rt rt'
        × ((k : ℕ) → Elem k rt'.ready_fibers → Elem k rt.ready_fibers ⊎ IsLive S rt k)
  cancel-IsSound fuel root r rt v run (g, there, how) deep =
      let (rt', e, keeps, cancelled) =
        cancel_lem S fuel root r v.tree.rank rt g v.tree.ranked deep there run in
      let newly : (k : ℕ) → IsLive S rt k → IsCancelled S rt' k → IsLinked S rt k = λ k live done.
        elim ((cancelled k).0 done) [
          | inl old ↦
              let (f, h, yet) = live in
              let (f', h', yes') = old in
              let same : ◌≡◌ {A = Option FiberState} (some f) (some f') = sym h ∙ h' in
              absurd (ground arith)
          | inr b ↦ Below-IsLinked v.tree (g, there, how) b
        ] in
      (
        rt',
        e,
        Frame-IsSound S {rt = rt} {rt' = rt'} (Keeps-Frame keeps) v
            (λ k m. elim (keeps.ready_from k m) [
              | inl old ↦ v.ready_linked k old
              | inr (live, done, other) ↦ newly k live done
            ])
            (Keeps-SameHandles keeps),
        keeps.same_running ∙ run,
        Keeps-Frame keeps,
        Keeps-SameHandles keeps,
        (λ k m. elim (keeps.ready_from k m) [
          | inl old ↦ inl old
          | inr (live, done, other) ↦ inr live
        ]),
      )

  -- Whatever the fuel is, if the cancellation returns, the runtime stays sound.
  pub cancelled-IsSound :
      (fuel root r : ℕ) (rt rt' : Runtime S)
      → IsSound S rt
      → rt.running_fiber ≡ some r
      → IsLinked S rt root
      → cancel S fuel root rt ≡ returns rt'
      → IsSound S rt' × (rt'.running_fiber ≡ some r) × Frame S rt rt'
  cancelled-IsSound fuel root r rt rt' v run l e =
      let deep : ℕ = fuel + suc (v.tree.rank root) in
      let (rt2, e2, v2, run2, fr, handles, from) =
        cancel-IsSound deep root r rt v run l (omega arith) in
      let e3 : cancel S deep root rt ≡ returns rt' =
        cancel-deeper S fuel deep root rt rt' (omega arith) e in
      let same : rt2 ≡ rt' = ground (arith, e2, e3) in
      subst (λ x. IsSound S x × (x.running_fiber ≡ some r) × Frame S rt x) same (v2, run2, fr)
