-- ===== src/Runtime/Cancel/Depth.antt =====
-- The depth that `RuntimeState::cancel` of src/runtime/mod.rs needs.
use uringy.Common.{ℕ, zero, suc, ◌≤◌, ◌≡◌, List, [], ◌∷◌, returns, Panics, arith, bind-returns}
use uringy.Runtime.Slab.{Slab}
use uringy.Runtime.State.{FiberState, Runtime, fiber, update_fiber}
use uringy.Runtime.Cancel.{for_each, wake_cancelled, cancel}

module _ (S : Slab FiberState) where
  for_each-deeper :
      (body body' : ℕ → Runtime S → Panics (Runtime S))
      → ((k : ℕ) (rt rt' : Runtime S) → body k rt ≡ returns rt' → body' k rt ≡ returns rt')
      → (ks : List ℕ) (rt rt' : Runtime S) → for_each S body ks rt ≡ returns rt'
      → for_each S body' ks rt ≡ returns rt'
  unfolding for_each
  for_each-deeper body body' up [] rt rt' e = e
  for_each-deeper body body' up (k ∷ ks) rt rt' e =
      let (rt1, first, rest) = bind-returns (body k rt) (for_each S body ks) rt' e in
      ground (arith, up k rt rt1 first, for_each-deeper body body' up ks rt1 rt' rest)

  -- If `cancel` returns, it returns the same with a deeper stack.
  pub cancel-deeper :
      (fuel fuel' root : ℕ) (rt rt' : Runtime S)
      → fuel ≤ fuel'
      → cancel S fuel root rt ≡ returns rt'
      → cancel S fuel' root rt ≡ returns rt'
  unfolding cancel
  cancel-deeper zero fuel' root rt rt' l e = absurd (ground arith)
  cancel-deeper (suc fuel) zero root rt rt' l e = absurd (omega arith)
  cancel-deeper (suc fuel) (suc fuel') root rt rt' l e =
      let (f, e1, r1) = bind-returns (fiber S rt root) _ rt' e in
      let (rt1, e2, r2) = bind-returns (wake_cancelled S root rt f.is_cancelled) _ rt' r1 in
      let (rt2, e3, r3) = bind-returns (update_fiber S rt1 root _) _ rt' r2 in
      let (g, e4, r4) = bind-returns (fiber S rt2 root) _ rt' r3 in
      let deeper : for_each S (cancel S fuel') g.children rt2 ≡ returns rt' =
        for_each-deeper (cancel S fuel) (cancel S fuel')
          (λ k x x'. cancel-deeper fuel fuel' k x x' (omega arith)) g.children rt2 rt' r4 in
      rw e1 (rw e2 (rw e3 (rw e4 deeper)))
