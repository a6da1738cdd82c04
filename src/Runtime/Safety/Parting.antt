-- ===== src/Runtime/Safety/Parting.antt =====
-- The end of `spawn_trampoline` of src/runtime/mod.rs on a sound runtime: the parent loses the child,
-- which leaves the slab if its join handle was dropped, and the next fiber runs.
use native.Mathlib.Decide.{ℕ_discrete}
use mathlib.Core.Path.{subst}
use uringy.Common.{
  ◌↔◌, ◌++◌, Elem-append, ℕ, ◌<◌, ◌≡◌, refl, sym, ap, ◌∙◌, ◌≢◌, ◌⊎◌, inl, inr, Bool, true, false,
  ◌&&◌, Option, none, some, List, [], ◌∷◌, Elem, All, map, returns, arith, if◌then◌else◌, contains,
  Bool-cases,
}
use uringy.Runtime.Slab.{Slab}
use uringy.Runtime.State.{
  JoinHandleState, unused, waiting, dropped, FiberState, Runtime, set_remove, set_is_empty,
}
use uringy.Runtime.Scheduler.{Cqe, process_completed}
use uringy.Runtime.Fibers.{leave_parent, free_dropped, depart}
use uringy.Runtime.Fibers.Family.{
  Elem-set_remove, leave_parent_lem, Ascends-IsOrdered, IsOrdered, Ascends,
}
use uringy.Runtime.Safety.{Has, IsLinked, IsSound, IsRunning}
use uringy.Runtime.Safety.Waking.{Continues, Resumes-Continues, process_io-Resumes, AreLinked}
use uringy.Runtime.Safety.Departure.{IsDone, Woken, wake_joiner-Woken}
use uringy.Runtime.Safety.Leaving.{Left, Loses, Loses-none, Left-IsSound, Left-IsLinked}

Ascends-lower : (low x : ℕ) (xs : List ℕ) → low < x → Ascends x xs → Ascends low xs
Ascends-lower low x [] l v = tt
Ascends-lower low x (y ∷ ys) l v = (omega (arith, v.0), v.1)

set_remove-Ascends : (a low : ℕ) (xs : List ℕ) → Ascends low xs → Ascends low (set_remove a xs)
unfolding set_remove
set_remove-Ascends a low [] v = tt
set_remove-Ascends a low (x ∷ xs) (l, v) = elim (ℕ_discrete a x) [
  | yes e ↦ ground (arith, Ascends-lower low x xs l v)
  | no ne ↦ ground (arith, set_remove-Ascends a x xs v)
]

set_remove-IsOrdered : (a : ℕ) (xs : List ℕ) → IsOrdered xs → IsOrdered (set_remove a xs)
unfolding set_remove
set_remove-IsOrdered a [] v = tt
set_remove-IsOrdered a (x ∷ xs) v = elim (ℕ_discrete a x) [
  | yes e ↦ ground (arith, Ascends-IsOrdered x xs v)
  | no ne ↦ ground (arith, set_remove-Ascends a x xs v)
]

woken_parent :
    (k p : ℕ) (ready : List ℕ) (wake : Bool)
    → Elem k (if wake then (if contains ready p then ready else ready ++ (p ∷ [])) else ready)
    → Elem k ready ⊎ (k ≡ p)
woken_parent k p ready false m = inl m
woken_parent k p ready true m = elim (Bool-cases (contains ready p)) [
  | inl old ↦ inl (rw old at m)
  | inr new ↦ elim (Elem-append k ready (p ∷ []) (rw new at m)) [
    | inl old ↦ inl old
    | inr (inl e) ↦ inr e
    | inr (inr never) ↦ absurd never
  ]
]

module _ (S : Slab FiberState) where
  free_dropped_lem :
      (r stack : ℕ) (j : JoinHandleState) (rt : Runtime S)
      → ((free_dropped S r j stack rt).ready_fibers ≡ rt.ready_fibers)
        × ((k : ℕ) → k ≢ r → S.get (free_dropped S r j stack rt).fibers k ≡ S.get rt.fibers k)
        × ((f : FiberState) → Has S (free_dropped S r j stack rt) r f → Has S rt r f)
  unfolding free_dropped
  free_dropped_lem r stack dropped rt = (
    refl,
    (λ k ne. ground (arith, S.get-remove rt.fibers r k)),
    (λ f h. ground (arith, S.get-remove rt.fibers r r)),
  )
  free_dropped_lem r stack unused rt = (refl, (λ k ne. refl), (λ f h. h))
  free_dropped_lem r stack (waiting w) rt = (refl, (λ k ne. refl), (λ f h. h))

  -- The parent when the child is off its children.
  Loses-child :
      (r : ℕ) (g g1 : FiberState)
      → IsOrdered g.children
      → g1.parent ≡ g.parent
      → g1.children ≡ g.children
      → g1.join_handle ≡ g.join_handle
      → Loses S r g (record g1 { children = set_remove r g1.children })
  Loses-child r g g1 order pa ch jo = record {
    parent = pa;
    join_handle = jo;
    stays = λ c m ne. (removed c).1 (subst (Elem c) (sym ch) m, ne);
    from = λ c m. let (m', ne) = (removed c).0 m in (subst (Elem c) ch m', ne);
    order = λ o. set_remove-IsOrdered r g1.children (subst IsOrdered (sym ch) o);
  }
    where
      removed : (c : ℕ) → Elem c (set_remove r g1.children) ↔ (Elem c g1.children × (c ≢ r))
      removed c = Elem-set_remove r c g1.children (subst IsOrdered (sym ch) order)

  -- After the joiner has been woken the child leaves, and with a dropped join handle is freed.
  Woken-Left :
      (rt rt1 : Runtime S) (r p : ℕ) (f pf : FiberState)
      → IsDone S rt r f
      → (v : IsSound S rt) → Woken S rt rt1 r
      → f.parent ≡ some p
      → Has S rt p pf
      → Elem r pf.children
      → (rt2 : Runtime S) × (g : FiberState) × (leave_parent S r rt1 ≡ returns rt2)
        × Has S rt2 r g
        × Left S rt (free_dropped S r g.join_handle g.stack rt2) r
  Woken-Left rt rt1 r p f pf d v w up there_p m =
      let (f1, h1, pa, ch) = w.frame.kept r f d.there in
      let (pf1, h_p, pa_p, ch_p) = w.frame.kept p pf there_p in
      let lower : v.tree.rank r < v.tree.rank p = v.tree.ranked.falls p r pf there_p m in
      let ne : r ≢ p = λ e. absurd (ground (arith, lower, ap v.tree.rank e)) in
      let (rt2, e, look, queue) = leave_parent_lem S r p f1 pf1 rt1 ne h1 (pa ∙ up) h_p in
      let h2 : Has S rt2 r f1 = ground (arith, look r, h1) in
      let (queue3, others, mine) = free_dropped_lem r f1.stack f1.join_handle rt2 in
      let rt3 : Runtime S = free_dropped S r f1.join_handle f1.stack rt2 in
      (
        rt2,
        f1,
        e,
        h2,
        record {
          not_root = d.not_root;
          childless = λ g c h m'.
              let same : g ≡ f = ground (arith, h, d.there) in
              subst (Elem c) (ap (λ x. x.children) same ∙ d.childless) m';
          unawaited = λ k g h other. d.unawaited k g h;
          kept = λ k g other h.
              let (g1, h_k, pa_k, ch_k) = w.frame.kept k g h in
              let jo : g1.join_handle ≡ g.join_handle = w.handles k g g1 other h h_k in
              elim (ℕ_discrete k p) [
                | yes e2 ↦ (
                  record g1 { children = set_remove r g1.children },
                  others k other ∙ ground (arith, look k, h_k, h_p),
                  Loses-child r g g1 (v.tree.ordered k g h) pa_k ch_k jo,
                )
                | no ne2 ↦ (
                  g1,
                  others k other ∙ ground (arith, look k, h_k),
                  Loses-none S r g g1
                      (λ m'.
                        let back = v.tree.parent_of k r g f h m' d.there in
                        absurd (ground (arith, up, back)))
                      pa_k ch_k jo,
                )
              ];
          absent = λ k other h.
              let away : S.get rt1.fibers k ≡ none = w.frame.absent k h in
              others k other ∙ ground (arith, look k, away, h_p);
          gone = λ g h.
              let same : g ≡ f1 = ground (arith, mine g h, h2) in
              (
                ap (λ x. x.children) same ∙ ch ∙ d.childless,
                λ j e. w.own f1 j h1 (ap (λ x. x.join_handle) (sym same) ∙ e),
              );
          ready = λ k m'.
              elim (woken_parent k p rt1.ready_fibers
                (pf1.is_completed && set_is_empty (set_remove r pf1.children))
                (subst (Elem k) (queue3 ∙ queue) m')) [
                  | inl old ↦ w.ready k old
                  | inr same ↦ (
                    subst (IsLinked S rt) (sym same) (v.tree.parents_linked p r pf there_p m),
                    λ other. ne (sym other ∙ same),
                  )
                ];
        },
      )

  -- Every completion is of a fiber that has not left, and not of fiber `r`.
  abbrev pub AreOthers : Runtime S → ℕ → List (List Cqe) → Type 0
  AreOthers rt r rounds =
      All
        (λ cqes.
          (k : ℕ) → Elem k (map (λ c. c.0) (process_completed cqes)) → IsLinked S rt k × (k ≢ r))
        rounds

  Left-AreLinked :
      {rt rt' : Runtime S} {r : ℕ}
      → Left S rt rt' r
      → (rounds : List (List Cqe)) → AreOthers rt r rounds
      → AreLinked S rt' rounds
  Left-AreLinked w [] a = tt
  Left-AreLinked w (cqes ∷ rounds) (now, later) =
      ((λ k m. let (l, ne) = now k m in Left-IsLinked S w k ne l), Left-AreLinked w rounds later)

  -- A fiber that has completed, other than the root, leaves a sound runtime without a panic: its
  -- joiner is woken or the root cancelled, and the next fiber runs or the runtime waits. The fuel is
  -- for the cancellation.
  pub depart-Continues :
      (fuel r : ℕ) (rounds : List (List Cqe)) (result_is_error : Bool) (rt : Runtime S)
      (f : FiberState)
      → (v : IsRunning S rt r) → IsDone S rt r f
      → v.sound.tree.rank 0 < fuel
      → AreOthers rt r rounds
      → (next : Option (Runtime S)) × (depart S fuel rounds result_is_error rt ≡ returns next)
        × Continues S next
  unfolding depart
  depart-Continues fuel r rounds b rt f v d deep a =
      let (f', there, how) = v.linked in
      elim how [
        | inl e ↦ absurd (d.not_root e)
        | inr (p, pf, up, there_p, m) ↦
            let same : f' ≡ f = ground (arith, there, d.there) in
            let (rt1, e1, w) = wake_joiner-Woken S fuel r b rt f f.join_handle v d deep refl in
            let (rt2, g, e2, h2, left) =
              Woken-Left rt rt1 r p f pf d v.sound w (sym (ap (λ x. x.parent) same) ∙ up) there_p
                m in
            let rt3 : Runtime S = free_dropped S r g.join_handle g.stack rt2 in
            let (next, e3, resumes) =
              process_io-Resumes S rounds rt3 (Left-IsSound S left v.sound)
                (Left-AreLinked left rounds a) in
            (
              next,
              ground (arith, v.runs, d.there, e1, e2, h2, e3),
              Resumes-Continues S rt3 next resumes,
            )
      ]
