-- ===== src/Runtime/Cancel/Reach.antt =====
-- What `RuntimeState::cancel` of src/runtime/mod.rs reaches: a fiber and everything below it.
use uringy.Common.{
  ℕ, zero, suc, ◌<◌, ◌≡◌, refl, sym, ap, ◌∙◌, ◌⊎◌, ◌↔◌, inl, inr, true, Option, some, List, [], ◌∷◌,
  returns, arith, Elem,
}
use mathlib.Core.Path.{subst}
use uringy.Runtime.Slab.{Slab}
use uringy.Runtime.State.{FiberState, Runtime}
use uringy.Runtime.Cancel.Forest.{
  Below, here, child, IsCancelled, Keeps, IsRanked, Keeps-refl, Keeps-trans, Keeps-IsCancelled,
  Keeps-Below, Keeps-Below_back, Keeps-IsRanked,
}
use uringy.Runtime.Cancel.Waking.{wake_lem, mark_lem}
use uringy.Runtime.Cancel.{for_each, cancel}

module _ (S : Slab FiberState) where
  -- What cancelling some fibers does: it reaches what is below them, and nothing else.
  pub record Cancels (rt : Runtime S) (roots : List ℕ) (rt' : Runtime S) : Type 0 where
    pub keeps : Keeps S rt rt'
    pub reaches : (root k : ℕ) → Elem root roots → Below S rt root k → IsCancelled S rt' k
    pub only :
        (k : ℕ)
        → IsCancelled S rt' k
        → IsCancelled S rt k ⊎ ((root : ℕ) × Elem root roots × Below S rt root k)

  abbrev Reaches : ℕ → (ℕ → ℕ) → ℕ → Type 0
  Reaches fuel rank r =
      (root : ℕ) (rt : Runtime S) (f : FiberState)
      → IsRanked S rt rank
      → rank root < fuel
      → S.get rt.fibers root ≡ some f
      → rt.running_fiber ≡ some r
      → (rt' : Runtime S) × (cancel S fuel root rt ≡ returns rt') × Cancels rt (root ∷ []) rt'

  -- The loop over the children.
  for_each-Cancels :
      (fuel r : ℕ) (rank : ℕ → ℕ)
      → Reaches fuel rank r
      → (ks : List ℕ) (rt : Runtime S) → IsRanked S rt rank
      → ((c : ℕ) → Elem c ks → (rank c < fuel) × ((g : FiberState) × (S.get rt.fibers c ≡ some g)))
      → rt.running_fiber ≡ some r
      → (rt' : Runtime S) × (for_each S (cancel S fuel) ks rt ≡ returns rt') × Cancels rt ks rt'
  unfolding for_each
  for_each-Cancels fuel r rank ih [] rt v small run = (
    rt,
    refl,
    record { keeps = Keeps-refl S rt; reaches = λ root k m. absurd m; only = λ k c. inl c },
  )
  for_each-Cancels fuel r rank ih (k ∷ ks) rt v small run =
      let (below, exists) = small k (inl refl) in
      let (g, there) = exists in
      let (r1, e1, c1) = ih k rt g v below there run in
      let (r2, e2, c2) =
        for_each-Cancels fuel r rank ih ks r1 (Keeps-IsRanked S c1.keeps v)
          (λ c m.
            let (below', exists') = small c (inr m) in
            let (h, there') = exists' in
            let (b, there'', up) = c1.keeps.forward c h there' in
            (below', (record h { is_cancelled = b }, there'')))
          (c1.keeps.same_running ∙ run) in
      (
        r2,
        rw e1 e2,
        record {
          keeps = Keeps-trans S c1.keeps c2.keeps;
          reaches = λ root j m b. elim m [
            | inl e ↦
                Keeps-IsCancelled S c2.keeps j
                  (c1.reaches k j (inl refl) (subst (λ n. Below S rt n j) e b))
            | inr m' ↦ c2.reaches root j m' (Keeps-Below S c1.keeps b)
          ];
          only = λ j c. elim (c2.only j c) [
            | inl c' ↦ first_only j (c1.only j c')
            | inr (root, m, b) ↦ inr (root, inr m, Keeps-Below_back S c1.keeps b)
          ];
        },
      )
    where
      first_only :
          (j : ℕ)
          → IsCancelled S rt j ⊎ ((root : ℕ) × Elem root (k ∷ []) × Below S rt root j)
          → IsCancelled S rt j ⊎ ((root : ℕ) × Elem root (k ∷ ks) × Below S rt root j)
      first_only j (inl c) = inl c
      first_only j (inr (root, inl e, b)) = inr (root, inl e, b)
      first_only j (inr (root, inr m, b)) = absurd m

  Below-cases :
      {rt : Runtime S} {root k : ℕ}
      → Below S rt root k
      → (k ≡ root)
        ⊎ ((c : ℕ) × (f : FiberState) × (S.get rt.fibers root ≡ some f)
            × Elem c f.children
            × Below S rt c k)
  Below-cases (here k) = inl refl
  Below-cases (child root c k f e m b) = inr (c, f, e, m, b)

  Below-root :
      (root : ℕ) (rt rt2 rt' : Runtime S) (f : FiberState) (k : ℕ)
      → Keeps S rt rt2
      → Cancels rt2 f.children rt'
      → S.get rt.fibers root ≡ some f
      → S.get rt2.fibers root ≡ some (record f { is_cancelled = true })
      → Below S rt root k
      → IsCancelled S rt' k
  Below-root root rt rt2 rt' f k keeps c there there' b = elim (Below-cases b) [
    | inl e ↦
        Keeps-IsCancelled S c.keeps k
          (record f { is_cancelled = true }, ap (S.get rt2.fibers) e ∙ there', refl)
    | inr (top, g, e, m, b') ↦
        let same : ◌≡◌ {A = Option FiberState} (some g) (some f) = sym e ∙ there in
        let children : g.children ≡ f.children = ground arith in
        c.reaches top k (subst (Elem top) children m) (Keeps-Below S keeps b')
  ]

  cancel-Cancels : (fuel r : ℕ) (rank : ℕ → ℕ) → Reaches fuel rank r
  unfolding cancel
  cancel-Cancels zero r rank root rt f v small there run = absurd (omega arith)
  cancel-Cancels (suc fuel) r rank root rt f v small there run =
      let (ready, woke, still, new, from, order) = wake_lem S root r rt f.is_cancelled run in
      let (keeps, there', only) = mark_lem S root r rt f ready there run still new from order in
      let f' : FiberState = record f { is_cancelled = true } in
      let rt2 : Runtime S = record rt { ready_fibers = ready; fibers = S.set rt.fibers root f' } in
      let (rt', looped, c) =
        for_each-Cancels fuel r rank (cancel-Cancels fuel r rank) f.children rt2
          (Keeps-IsRanked S keeps v)
          (λ c m.
            let (g, there_c) = v.present root c f there m in
            let (b, there_c', up) = keeps.forward c g there_c in
            let lower : rank c < rank root = v.falls root c f there m in
            (omega arith, (record g { is_cancelled = b }, there_c')))
          run in
      (
        rt',
        ground (arith, woke, there', looped),
        record {
          keeps = Keeps-trans S keeps c.keeps;
          reaches = λ top k m b. elim m [
            | inl e ↦
                Below-root root rt rt2 rt' f k keeps c there there'
                  (subst (λ n. Below S rt n k) e b)
            | inr never ↦ absurd never
          ];
          only = λ k done. elim (c.only k done) [
            | inl c2 ↦ elim (only k c2) [
              | inl c1 ↦ inl c1
              | inr e ↦ inr (root, inl refl, subst (Below S rt root) (sym e) (here root))
            ]
            | inr (top, m, b) ↦
                inr (root, inl refl, child root top k f there m (Keeps-Below_back S keeps b))
          ];
        },
      )

  pub cancel_lem :
      (fuel root r : ℕ) (rank : ℕ → ℕ) (rt : Runtime S) (f : FiberState)
      → IsRanked S rt rank
      → rank root < fuel
      → S.get rt.fibers root ≡ some f
      → rt.running_fiber ≡ some r
      → (rt' : Runtime S) × (cancel S fuel root rt ≡ returns rt')
        × Keeps S rt rt'
        × ((k : ℕ) → IsCancelled S rt' k ↔ (IsCancelled S rt k ⊎ Below S rt root k))
  cancel_lem fuel root r rank rt f v small there run =
      let (rt', e, c) = cancel-Cancels fuel r rank root rt f v small there run in
      (
        rt',
        e,
        c.keeps,
        λ k. (
          (λ done. elim (c.only k done) [
            | inl old ↦ inl old
            | inr (top, inl same, b) ↦ inr (subst (λ n. Below S rt n k) same b)
            | inr (top, inr never, b) ↦ absurd never
          ]),
          (λ h. elim h [
            | inl old ↦ Keeps-IsCancelled S c.keeps k old
            | inr b ↦ c.reaches root k (inl refl) b
          ]),
        ),
      )
