-- ===== src/Runtime/Cancel/Waking.antt =====
-- The first part of `RuntimeState::cancel` of src/runtime/mod.rs, before the children.
use uringy.Common.{
  append-nil, ℕ, ◌≡◌, refl, sym, ap, ◌∙◌, ◌≢◌, ◌⊎◌, inl, inr, Bool, true, false, Option, some, List,
  [], ◌∷◌, returns, ◌==◌, if◌then◌else◌, arith, Elem, Bool-cases, contains, contains-Elem,
  Elem-append, Elem-append_left, Elem-append_right, ◌++◌,
}
use native.Mathlib.Decide.{ℕ_discrete}
use uringy.Runtime.Slab.{Slab}
use uringy.Runtime.State.{FiberState, Runtime}
use uringy.Runtime.Cancel.Forest.{IsCancelled, Keeps}
use uringy.Runtime.Cancel.{wake_cancelled}

module _ (S : Slab FiberState) where
  -- The first part of `cancel`: waking the fiber.
  pub wake_lem :
      (root r : ℕ) (rt : Runtime S) (b : Bool)
      → rt.running_fiber ≡ some r
      → (ready : List ℕ) × (wake_cancelled S root rt b
          ≡ returns (record rt { ready_fibers = ready }))
        × ((k : ℕ) → Elem k rt.ready_fibers → Elem k ready)
        × (b ≡ false → root ≢ r → Elem root ready)
        × ((k : ℕ)
            → Elem k ready
            → Elem k rt.ready_fibers ⊎ ((k ≡ root) × (b ≡ false) × (root ≢ r)))
        × ((added : List ℕ) × (ready ≡ rt.ready_fibers ++ added))
  unfolding wake_cancelled
  wake_lem root r rt true run = (
    rt.ready_fibers,
    refl,
    (λ k m. m),
    (λ h. cc),
    (λ k m. inl m),
    ([], sym (append-nil rt.ready_fibers)),
  )
  wake_lem root r rt false run = elim (ℕ_discrete root r) [
    | yes e ↦ (
      rt.ready_fibers,
      ground arith,
      (λ k m. m),
      (λ h ne. absurd (ne e)),
      (λ k m. inl m),
      ([], sym (append-nil rt.ready_fibers)),
    )
    | no ne ↦ elim (Bool-cases (contains rt.ready_fibers root)) [
      | inl old ↦ (
        rt.ready_fibers,
        ground arith,
        (λ k m. m),
        (λ h ne'. contains-Elem rt.ready_fibers root old),
        (λ k m. inl m),
        ([], sym (append-nil rt.ready_fibers)),
      )
      | inr new ↦ (
        rt.ready_fibers ++ (root ∷ []),
        ground arith,
        (λ k m. Elem-append_left k rt.ready_fibers (root ∷ []) m),
        (λ h ne'. Elem-append_right root rt.ready_fibers (root ∷ []) (inl refl)),
        (λ k m. elim (Elem-append k rt.ready_fibers (root ∷ []) m) [
          | inl old' ↦ inl old'
          | inr (inl e) ↦ inr (e, refl, ne)
          | inr (inr never) ↦ absurd never
        ]),
        (root ∷ [], refl),
      )
    ]
  ]

  -- Marking a fiber cancelled.
  pub mark_lem :
      (root r : ℕ) (rt : Runtime S) (f : FiberState) (ready : List ℕ)
      → S.get rt.fibers root ≡ some f
      → rt.running_fiber ≡ some r
      → ((k : ℕ) → Elem k rt.ready_fibers → Elem k ready)
      → (f.is_cancelled ≡ false → root ≢ r → Elem root ready)
      → ((k : ℕ)
          → Elem k ready
          → Elem k rt.ready_fibers ⊎ ((k ≡ root) × (f.is_cancelled ≡ false) × (root ≢ r)))
      → (added : List ℕ) × (ready ≡ rt.ready_fibers ++ added)
      → let rt2 : Runtime S = record rt {
        ready_fibers = ready;
        fibers = S.set rt.fibers root (record f { is_cancelled = true });
      } in
        Keeps S rt rt2
        × (S.get rt2.fibers root ≡ some (record f { is_cancelled = true }))
        × ((k : ℕ) → IsCancelled S rt2 k → IsCancelled S rt k ⊎ (k ≡ root))
  mark_lem root r rt f ready there run still new from order =
      let f2 : FiberState = record f { is_cancelled = true } in
      let look : (k : ℕ)
          → S.get (S.set rt.fibers root f2) k ≡ (if k == root then some f2 else S.get rt.fibers k) =
        λ k. S.get-set rt.fibers root f2 f k there in
      (
        record {
          same_running = refl;
          same_memory = refl;
          same_pool = refl;
          same_kernel = refl;
          same_order = order;
          forward = λ k g e. elim (ℕ_discrete k root) [
            | yes h ↦ (true, ground (arith, look k), (λ _. refl))
            | no h ↦ (g.is_cancelled, ground (arith, look k), (λ c. c))
          ];
          absent = λ k e. elim (ℕ_discrete k root) [
            | yes h ↦ absurd (ground arith)
            | no h ↦ ground (arith, look k)
          ];
          still_ready = still;
          woken = λ k g e c done other. elim (ℕ_discrete k root) [
            | yes h ↦ rw h (new (was k g e c h) (λ same. other (run ∙ ap some (sym same ∙ sym h))))
            | no h ↦ let (g', e', yes') = done in absurd (ground (arith, look k))
          ];
          ready_from = λ k m. elim (from k m) [
            | inl old ↦ inl old
            | inr (e, live, ne) ↦ inr (
              (f, ap (S.get rt.fibers) e ∙ there, live),
              (f2, ground (arith, look k), refl),
              λ h. ne (ground (arith, h, run, e)),
            )
          ];
        },
        ground (arith, look root),
        λ k c.
            let (g', e', set') = c in
            elim (ℕ_discrete k root) [
              | yes h ↦ inr h
              | no h ↦ inl (g', ground (arith, look k), set')
            ],
      )
    where
      was :
          (k : ℕ) (g : FiberState)
          → S.get rt.fibers k ≡ some g
          → g.is_cancelled ≡ false
          → k ≡ root
          → f.is_cancelled ≡ false
      was k g e c h =
          let same : ◌≡◌ {A = Option FiberState} (some f) (some g) =
            sym there ∙ (ap (S.get rt.fibers) (sym h) ∙ e) in
          ground arith
