-- ===== src/Runtime/Safety/Waking.antt =====
-- Waking fibers and choosing the next one in src/runtime/mod.rs keeps a runtime sound, and does not
-- panic.
use mathlib.Core.Path.{subst}
use uringy.Common.{
  ℕ, ◌≡◌, refl, sym, ap, ◌∙◌, ◌⊎◌, inl, inr, Option, none, some, List, [], ◌∷◌, Elem, All, map,
  map_option, Bool-cases, contains, Elem-append, arith, Panics, returns,
}
use uringy.Runtime.Slab.{Slab}
use uringy.Runtime.State.{FiberState, Runtime, saved}
use uringy.Runtime.Scheduler.{
  Cqe, schedule_with, deliver, pop_ready, process_io, process_completed, park,
}
use uringy.Runtime.Scheduler.Order.{deliver_lem, Elem-enqueue_all, with_latest}
use uringy.Runtime.Fibers.{Progress, finished, suspended}
use uringy.Runtime.Safety.{IsLinked, IsSound, IsRunning}
use uringy.Runtime.Safety.Frame.{
  Frame, Frame-IsLinked, Frame-IsSound, Frame-same, Frame-set, Frame-trans, same-IsSound,
  set-IsSound,
}

module _ (S : Slab FiberState) where
  pub Elem-schedule_with :
      (k : ℕ) (rt : Runtime S) (j : ℕ)
      → Elem j (schedule_with S k rt).ready_fibers
      → Elem j rt.ready_fibers ⊎ (j ≡ k)
  unfolding schedule_with
  Elem-schedule_with k rt j m = elim (Bool-cases (contains rt.ready_fibers k)) [
    | inl old ↦ inl (rw old at m)
    | inr new ↦ elim (Elem-append j rt.ready_fibers (k ∷ []) (rw new at m)) [
      | inl old ↦ inl old
      | inr (inl e) ↦ inr e
      | inr (inr never) ↦ absurd never
    ]
  ]

  pub schedule_with-fibers : (k : ℕ) (rt : Runtime S) → (schedule_with S k rt).fibers ≡ rt.fibers
  unfolding schedule_with
  schedule_with-fibers k rt = ground arith

  schedule_with-running :
      (k : ℕ) (rt : Runtime S) → (schedule_with S k rt).running_fiber ≡ rt.running_fiber
  unfolding schedule_with
  schedule_with-running k rt = ground arith

  pub schedule_with-IsSound :
      (k : ℕ) (rt : Runtime S) → IsSound S rt → IsLinked S rt k → IsSound S (schedule_with S k rt)
  schedule_with-IsSound k rt v linked =
      same-IsSound S rt (schedule_with S k rt) (schedule_with-fibers k rt) v (λ j m.
        elim (Elem-schedule_with k rt j m) [
          | inl old ↦ v.ready_linked j old
          | inr e ↦ subst (IsLinked S rt) (sym e) linked
        ])

  pub schedule_with-IsRunning :
      (k r : ℕ) (rt : Runtime S)
      → IsRunning S rt r
      → IsLinked S rt k
      → IsRunning S (schedule_with S k rt) r
  schedule_with-IsRunning k r rt v linked =
      let fr : Frame S rt (schedule_with S k rt) = Frame-same S (schedule_with-fibers k rt) in
      record {
        sound = schedule_with-IsSound k rt v.sound linked;
        runs = schedule_with-running k rt ∙ v.runs;
        linked = Frame-IsLinked S fr r v.linked;
      }

  deliver-IsSound :
      (cqes : List Cqe) (rt : Runtime S)
      → IsSound S rt
      → ((k : ℕ) → Elem k (map (λ c. c.0) cqes) → IsLinked S rt k)
      → (rt' : Runtime S) × (deliver S cqes rt ≡ returns rt') × IsSound S rt' × Frame S rt rt'
  deliver-IsSound cqes rt v linked =
      let (rt', e, ready, results) =
        deliver_lem S cqes rt (λ k m. let (g, h, how) = linked k m in (g, h)) in
      let fr : Frame S rt rt' = record {
        kept = λ k f h.
            (with_latest k cqes f, results k ∙ ap (map_option (with_latest k cqes)) h, refl, refl);
        absent = λ k h. results k ∙ ap (map_option (with_latest k cqes)) h;
      } in
      (
        rt',
        e,
        Frame-IsSound S fr v
            (λ j m. woken j (Elem-enqueue_all j rt.ready_fibers cqes (rw ready at m)))
            (λ k f f' h h'.
              let same : ◌≡◌ {A = Option FiberState} (some f') (some (with_latest k cqes f)) =
                sym h' ∙ results k ∙ ap (map_option (with_latest k cqes)) h in
              ground arith),
        fr,
      )
    where
      woken : (j : ℕ) → Elem j rt.ready_fibers ⊎ Elem j (map (λ c. c.0) cqes) → IsLinked S rt j
      woken j (inl m) = v.ready_linked j m
      woken j (inr m) = linked j m

  -- What `process_io` comes to on a sound runtime: the rounds are over while it waits, or a fiber runs
  -- in a sound runtime with the same tree.
  unfoldable pub Resumes : Runtime S → Option (Runtime S) → Type 0
  Resumes rt none = Unit {0}
  Resumes rt (some rt') = (r : ℕ) × IsRunning S rt' r × Frame S rt rt'

  -- Either the rounds are over while the runtime waits, or a fiber runs in a sound runtime.
  unfoldable pub Continues : Option (Runtime S) → Type 0
  Continues none = Unit {0}
  Continues (some rt) = (r : ℕ) × IsRunning S rt r

  pub Resumes-Continues :
      (rt : Runtime S) (next : Option (Runtime S)) → Resumes rt next → Continues next
  unfolding Resumes Continues
  Resumes-Continues rt none u = tt
  Resumes-Continues rt (some rt') (r, v, fr) = (r, v)

  -- Fiber `r` goes on, or has been suspended.
  unfoldable pub Goes : {A : Type 0} → ℕ → Progress A (Runtime S) → Type 0
  Goes r (finished a rt) = IsRunning S rt r
  Goes r (suspended next) = Continues next

  -- Every completion is of a fiber that has not left.
  abbrev pub AreLinked : Runtime S → List (List Cqe) → Type 0
  AreLinked rt rounds =
      All (λ cqes. (k : ℕ) → Elem k (map (λ c. c.0) (process_completed cqes)) → IsLinked S rt k)
        rounds

  pub AreLinked-Frame :
      {rt rt' : Runtime S}
      → Frame S rt rt'
      → (rounds : List (List Cqe)) → AreLinked rt rounds
      → AreLinked rt' rounds
  AreLinked-Frame fr [] v = tt
  AreLinked-Frame fr (cqes ∷ rounds) (now, v) =
      ((λ k m. Frame-IsLinked S fr k (now k m)), AreLinked-Frame fr rounds v)

  pub Resumes-Frame :
      {rt rt1 : Runtime S}
      → Frame S rt rt1
      → (next : Option (Runtime S)) → Resumes rt1 next
      → Resumes rt next
  unfolding Resumes
  Resumes-Frame fr none u = tt
  Resumes-Frame fr (some rt2) (r, running, fr') = (r, running, Frame-trans S fr fr')

  pub process_io-Resumes :
      (rounds : List (List Cqe)) (rt : Runtime S)
      → IsSound S rt
      → AreLinked rt rounds
      → (next : Option (Runtime S)) × (process_io S rounds rt ≡ returns next) × Resumes rt next
  unfolding process_io Resumes pop_ready
  process_io-Resumes [] rt v a = (none, refl, tt)
  process_io-Resumes (cqes ∷ rounds) rt v (now, later) =
      let (rt1, e, v1, fr) = deliver-IsSound (process_completed cqes) rt v now in
      let (next, e', resumes) =
        process_io-Resumes rounds rt1 v1 (AreLinked-Frame fr rounds later) in
      choose rt1 fr v1 e next e' resumes rt1.ready_fibers refl
    where
      choose :
          (rt1 : Runtime S)
          → Frame S rt rt1
          → IsSound S rt1
          → deliver S (process_completed cqes) rt ≡ returns rt1
          → (next : Option (Runtime S)) → process_io S rounds rt1 ≡ returns next
          → Resumes rt1 next
          → (q : List ℕ) → rt1.ready_fibers ≡ q
          → (next : Option (Runtime S)) × (process_io S (cqes ∷ rounds) rt ≡ returns next)
            × Resumes rt next
      choose rt1 fr v1 e next e' resumes [] empty =
          (next, ground (arith, e, e', empty), Resumes-Frame fr next resumes)
      choose rt1 fr v1 e next e' resumes (k ∷ ks) queue =
          let (g, there, how) = v1.ready_linked k (rw queue (inl refl)) in
          let rt2 : Runtime S = record rt1 { running_fiber = some k; ready_fibers = ks } in
          let v2 : IsSound S rt2 =
            same-IsSound S rt1 rt2 refl v1 (λ j m. v1.ready_linked j (rw queue (inr m))) in
          (
            some rt2,
            ground (arith, e, queue, there),
            (
              k,
              record { sound = v2; runs = refl; linked = (g, there, how) },
              Frame-trans S fr (Frame-same S refl),
            ),
          )

  -- `park` on a sound runtime, if its callback keeps it sound, saves the context of the running fiber
  -- and lets the next one run.
  pub park-Resumes :
      (schedule : ℕ → Runtime S → Panics (Runtime S)) (rounds : List (List Cqe))
      (rt rt1 : Runtime S) (r : ℕ)
      → rt.running_fiber ≡ some r
      → schedule r rt ≡ returns rt1
      → IsSound S rt1
      → IsLinked S rt1 r
      → AreLinked rt1 rounds
      → (next : Option (Runtime S)) × (park S schedule rounds rt ≡ returns next) × Resumes rt1 next
  unfolding park Resumes
  park-Resumes schedule rounds rt rt1 r run scheduled v (g, there, how) linked =
      let g' : FiberState = record g { continuation = saved } in
      let rt2 : Runtime S = record rt1 { fibers = S.set rt1.fibers r g' } in
      let fr : Frame S rt1 rt2 = Frame-set S r g g' refl there refl refl in
      let v2 : IsSound S rt2 =
        set-IsSound S rt1 rt2 r g g' refl there refl refl refl v v.ready_linked in
      let (next, e, resumes) =
        process_io-Resumes rounds rt2 v2 (AreLinked-Frame fr rounds linked) in
      (next, ground (arith, run, scheduled, there, e), Resumes-Frame fr next resumes)
