-- ===== src/Runtime/Cancel.antt =====
-- Cancellation in src/runtime/mod.rs.
pub mod Forest
pub mod Reach
mod Waking
pub mod Depth
use uringy.Common.{
  ℕ, zero, suc, ◌≡◌, Bool, true, false, not, ◌&&◌, Option, none, some, List, [], ◌∷◌, Panics,
  returns, panics, ◌>>=◌, ◌==◌, if◌then◌else◌,
}
use uringy.Runtime.Slab.{Slab}
use uringy.Runtime.State.{FiberState, RuntimeState, Runtime, unwrap, fiber, update_fiber, running}
use uringy.Runtime.Scheduler.{schedule_with}

-- `RuntimeState::nearest_contained`
unfoldable pub nearest_contained : ℕ → ℕ
nearest_contained k = 0

module _ (S : Slab FiberState) where
  -- A `for` loop whose body changes the runtime.
  unfoldable pub for_each :
      (ℕ → Runtime S → Panics (Runtime S)) → List ℕ → Runtime S → Panics (Runtime S)
  for_each body [] rt = returns rt
  for_each body (k ∷ ks) rt = do rt' ← body k rt; for_each body ks rt'

  -- The condition's right operand is evaluated only if the fiber is not cancelled yet.
  unfoldable pub wake_cancelled : ℕ → Runtime S → Bool → Panics (Runtime S)
  unfolding schedule_with
  wake_cancelled root rt true = returns rt
  wake_cancelled root rt false = do
    k ← unwrap rt.running_fiber
    returns (if root == k then rt else schedule_with S root rt)

  -- `RuntimeState::cancel`. The fuel bounds the depth of the recursion; running out of it stands for
  -- a stack overflow.
  unfoldable pub cancel : ℕ → ℕ → Runtime S → Panics (Runtime S)
  unfolding for_each wake_cancelled
  cancel zero root rt = panics
  cancel (suc fuel) root rt = do
    f ← fiber S rt root
    rt1 ← wake_cancelled root rt f.is_cancelled
    rt2 ← update_fiber S rt1 root (λ g. record g { is_cancelled = true })
    g ← fiber S rt2 root
    for_each (cancel fuel) g.children rt2

  -- The free function `cancel`, on the running fiber.
  unfoldable pub cancel_running : ℕ → Runtime S → Panics (Runtime S)
  unfolding cancel
  cancel_running fuel rt = do k ← unwrap rt.running_fiber; cancel fuel k rt

  -- `cancel_propagating`, and `JoinHandle::cancel_propagating` on fiber `k`
  unfoldable pub cancel_propagating : ℕ → ℕ → Runtime S → Panics (Runtime S)
  unfolding cancel nearest_contained
  cancel_propagating fuel k rt = cancel fuel (nearest_contained k) rt

  -- `is_cancelled`
  unfoldable pub is_cancelled : Runtime S → Panics Bool
  is_cancelled rt = do f ← running S rt; returns f.is_cancelled
