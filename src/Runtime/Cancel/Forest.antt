-- ===== src/Runtime/Cancel/Forest.antt =====
-- Forests of fibers in src/runtime/mod.rs, and runtimes that differ in cancellation only.
use uringy.Common.{
  ℕ, ◌<◌, ◌≡◌, refl, sym, ◌∙◌, ◌≢◌, ◌⊎◌, inl, inr, Bool, true, false, Option, none, some, arith,
  List, [], ◌++◌, append-nil, append_assoc, ap, Elem, Bool-cases, Option-cases,
}
use mathlib.Core.Path.{subst}
use uringy.Runtime.Slab.{Slab}
use uringy.Runtime.State.{FiberState, Runtime}

module _ (S : Slab FiberState) where
  -- The fibers at and below `root`.
  pub data Below (rt : Runtime S) : ℕ → ℕ → Type 0 where
    here : (k : ℕ) → Below rt k k
    child :
        (root c k : ℕ) (f : FiberState)
        → S.get rt.fibers root ≡ some f
        → Elem c f.children
        → Below rt c k
        → Below rt root k

  -- Fiber `k` is there, and is cancelled.
  abbrev pub IsCancelled : Runtime S → ℕ → Type 0
  IsCancelled rt k = (f : FiberState) × (S.get rt.fibers k ≡ some f) × (f.is_cancelled ≡ true)

  -- Fiber `k` is there, and is not cancelled.
  abbrev pub IsLive : Runtime S → ℕ → Type 0
  IsLive rt k = (f : FiberState) × (S.get rt.fibers k ≡ some f) × (f.is_cancelled ≡ false)

  -- `rt'` differs from `rt` in cancelled flags that have been set and in the ready queue only. Behind
  -- the queue as it was stand fibers that have been cancelled: all of them are in the queue but the
  -- running one, which is not put there.
  pub record Keeps (rt rt' : Runtime S) : Type 0 where
    pub same_running : rt'.running_fiber ≡ rt.running_fiber
    pub same_memory : rt'.memory ≡ rt.memory
    pub same_pool : rt'.stack_pool ≡ rt.stack_pool
    pub same_kernel : rt'.kernel ≡ rt.kernel
    pub same_order : (added : List ℕ) × (rt'.ready_fibers ≡ rt.ready_fibers ++ added)
    pub forward :
        (k : ℕ) (f : FiberState)
        → S.get rt.fibers k ≡ some f
        → (b : Bool) × (S.get rt'.fibers k ≡ some (record f { is_cancelled = b }))
          × (f.is_cancelled ≡ true → b ≡ true)
    pub absent : (k : ℕ) → S.get rt.fibers k ≡ none → S.get rt'.fibers k ≡ none
    pub still_ready : (k : ℕ) → Elem k rt.ready_fibers → Elem k rt'.ready_fibers
    pub woken :
        (k : ℕ) (f : FiberState)
        → S.get rt.fibers k ≡ some f
        → f.is_cancelled ≡ false
        → IsCancelled rt' k
        → rt.running_fiber ≢ some k
        → Elem k rt'.ready_fibers
    pub ready_from :
        (k : ℕ)
        → Elem k rt'.ready_fibers
        → Elem k rt.ready_fibers ⊎ (IsLive rt k × IsCancelled rt' k × (rt.running_fiber ≢ some k))

  pub Keeps-refl : (rt : Runtime S) → Keeps rt rt
  Keeps-refl rt = record {
    same_running = refl;
    same_memory = refl;
    same_pool = refl;
    same_kernel = refl;
    same_order = ([], sym (append-nil rt.ready_fibers));
    forward = λ k f e. (f.is_cancelled, e, λ h. h);
    absent = λ k e. e;
    still_ready = λ k m. m;
    woken = λ k f e c (g, e', c') _. absurd (ground arith);
    ready_from = λ k m. inl m;
  }

  pub Keeps-IsCancelled :
      {r1 r2 : Runtime S} → Keeps r1 r2 → (k : ℕ) → IsCancelled r1 k → IsCancelled r2 k
  Keeps-IsCancelled p k (f, e, c) =
      let (b, e', up) = p.forward k f e in (record f { is_cancelled = b }, e', up c)

  -- A fiber of `r2` is one of `r1`, with the same children.
  backward :
      {r1 r2 : Runtime S}
      → Keeps r1 r2
      → (k : ℕ) (f : FiberState) → S.get r2.fibers k ≡ some f
      → (g : FiberState) × (S.get r1.fibers k ≡ some g) × (f.children ≡ g.children)
  backward {r1} {r2} p k f e = elim (Option-cases (S.get r1.fibers k)) [
    | inl none_there ↦ absurd (ground (arith, p.absent k none_there))
    | inr (g, there) ↦
        let (b, e', up) = p.forward k g there in
        let same : ◌≡◌ {A = Option FiberState} (some (record g { is_cancelled = b })) (some f) =
          sym e' ∙ e in
        (g, there, ground arith)
  ]

  -- A fiber that is not cancelled afterwards was not cancelled before.
  Keeps-IsLive : {r1 r2 : Runtime S} → Keeps r1 r2 → (k : ℕ) → IsLive r2 k → IsLive r1 k
  Keeps-IsLive {r1} {r2} p k (f2, e2, live) =
      let (f, e, same) = backward p k f2 e2 in
      let (b, e', up) = p.forward k f e in (f, e, ground (arith, up))

  pub Keeps-trans : {r1 r2 r3 : Runtime S} → Keeps r1 r2 → Keeps r2 r3 → Keeps r1 r3
  Keeps-trans {r1} {r2} {r3} p q = record {
    same_running = q.same_running ∙ p.same_running;
    same_memory = q.same_memory ∙ p.same_memory;
    same_pool = q.same_pool ∙ p.same_pool;
    same_kernel = q.same_kernel ∙ p.same_kernel;
    same_order =
        let (first, e) = p.same_order in
        let (later, e') = q.same_order in
        (first ++ later, e' ∙ (ap (λ l. l ++ later) e ∙ append_assoc r1.ready_fibers first later));
    forward = λ k f e.
        let (b, e', up) = p.forward k f e in
        let (b', e'', up') = q.forward k (record f { is_cancelled = b }) e' in
        (b', e'', λ h. up' (up h));
    absent = λ k e. q.absent k (p.absent k e);
    still_ready = λ k m. q.still_ready k (p.still_ready k m);
    woken = λ k f e c done other.
        let (b, e', up) = p.forward k f e in
        elim (Bool-cases b) [
          | inl yet ↦
              q.still_ready k (p.woken k f e c (record f { is_cancelled = b }, e', yet) other)
          | inr not_yet ↦
              q.woken k (record f { is_cancelled = b }) e' not_yet done
                (λ h. other (sym p.same_running ∙ h))
        ];
    ready_from = λ k m. elim (q.ready_from k m) [
      | inl m' ↦ elim (p.ready_from k m') [
        | inl old ↦ inl old
        | inr (live, done, other) ↦ inr (live, Keeps-IsCancelled q k done, other)
      ]
      | inr (live, done, other) ↦ inr (Keeps-IsLive p k live, done, λ h. other (p.same_running ∙ h))
    ];
  }

  pub Keeps-Below :
      {r1 r2 : Runtime S} {root k : ℕ} → Keeps r1 r2 → Below r1 root k → Below r2 root k
  Keeps-Below p (here k) = here k
  Keeps-Below p (child root c k f e m b) =
      let (flag, e', up) = p.forward root f e in
      child root c k (record f { is_cancelled = flag }) e' m (Keeps-Below p b)

  pub Keeps-Below_back :
      {r1 r2 : Runtime S} {root k : ℕ} → Keeps r1 r2 → Below r2 root k → Below r1 root k
  Keeps-Below_back p (here k) = here k
  Keeps-Below_back p (child root c k f e m b) =
      let (g, e', same) = backward p root f e in
      child root c k g e' (subst (Elem c) same m) (Keeps-Below_back p b)

  -- The fibers below a fiber exist, and `rank` falls along the tree.
  pub record IsRanked (rt : Runtime S) (rank : ℕ → ℕ) : Type 0 where
    pub present :
        (k c : ℕ) (f : FiberState)
        → S.get rt.fibers k ≡ some f
        → Elem c f.children
        → (g : FiberState) × (S.get rt.fibers c ≡ some g)
    pub falls :
        (k c : ℕ) (f : FiberState)
        → S.get rt.fibers k ≡ some f
        → Elem c f.children
        → rank c < rank k

  pub Keeps-IsRanked :
      {r1 r2 : Runtime S} {rank : ℕ → ℕ} → Keeps r1 r2 → IsRanked r1 rank → IsRanked r2 rank
  Keeps-IsRanked {r1} {r2} p v = record {
    present = λ k c f e m.
        let (g, e', same) = backward p k f e in
        let (h, there) = v.present k c g e' (subst (Elem c) same m) in
        let (b, there', up) = p.forward c h there in (record h { is_cancelled = b }, there');
    falls = λ k c f e m.
        let (g, e', same) = backward p k f e in v.falls k c g e' (subst (Elem c) same m);
  }
