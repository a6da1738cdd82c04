-- ===== src/Runtime/Join/Outcome.antt =====
-- What joining a fiber gives in src/runtime/mod.rs.
use uringy.Common.{
  ℕ, ok, err, ap, ◌≡◌, refl, ◌≢◌, true, none, some, List, ◌∷◌, returns, panics, ◌==◌, if◌then◌else◌,
  arith,
}
use uringy.Errors.{original}
use uringy.Runtime.Slab.{Slab}
use uringy.Runtime.State.{dropped, Output, output, value, panicked, FiberState, Runtime}
use uringy.Runtime.Scheduler.{Cqe}
use uringy.Runtime.Fibers.{finished, leave_parent}
use uringy.Runtime.Join.{JoinResult, to_join_result, join}

module _ (S : Slab FiberState) where
  -- What joining such a fiber leaves.
  join_leaves :
      (rounds : List (List Cqe)) (k r : ℕ) (f h : FiberState) (o : Output) (rt : Runtime S)
      → rt.running_fiber ≡ some r
      → S.get rt.fibers r ≡ some h
      → S.get rt.fibers k ≡ some f
      → f.is_completed ≡ true
      → rt.memory f.stack ≡ some (output o)
      → (rt' : Runtime S) × (join S rounds k rt ≡ returns (finished (to_join_result o) rt'))
        × (rt'.stack_pool ≡ f.stack ∷ rt.stack_pool)
        × (rt'.ready_fibers ≡ rt.ready_fibers)
        × ((j : ℕ) → S.get rt'.fibers j ≡ (if j == k then none else S.get rt.fibers j))
  unfolding join
  join_leaves rounds k r f h o rt run there_r there done out =
      let f' : FiberState = record f { join_handle = dropped } in
      let s1 : S.Store = S.set rt.fibers k f' in
      let s2 : S.Store = S.remove s1 k in
      let look1 : (j : ℕ) → S.get s1 j ≡ (if j == k then some f' else S.get rt.fibers j) =
        λ j. S.get-set rt.fibers k f' f j there in
      let look2 : (j : ℕ) → S.get s2 j ≡ (if j == k then none else S.get s1 j) =
        λ j. S.get-remove s1 k j in
      (
        record rt { stack_pool = f.stack ∷ rt.stack_pool; fibers = s2 },
        ground (arith, run, there_r, there, out, look1 k),
        refl,
        refl,
        (λ j. ground (arith, look1 j, look2 j)),
      )

  -- Joining a fiber that has completed returns its output at once, the value
  -- of the closure or what it panicked with as an error. It gives its stack back, and takes
  -- the fiber and nothing else out of the slab.
  pub join-completed :
      (rounds : List (List Cqe)) (k r : ℕ) (f h : FiberState) (o : Output) (rt : Runtime S)
      → rt.running_fiber ≡ some r
      → S.get rt.fibers r ≡ some h
      → S.get rt.fibers k ≡ some f
      → f.is_completed ≡ true
      → rt.memory f.stack ≡ some (output o)
      → (result : JoinResult) × (rt' : Runtime S) × (join S rounds k rt
          ≡ returns (finished result rt'))
        × ((n : ℕ) → o ≡ value n → result ≡ ok n)
        × ((p : ℕ) → o ≡ panicked p → result ≡ err (original p))
        × (rt'.stack_pool ≡ f.stack ∷ rt.stack_pool)
        × (rt'.ready_fibers ≡ rt.ready_fibers)
        × ((j : ℕ) → S.get rt'.fibers j ≡ (if j == k then none else S.get rt.fibers j))
  join-completed rounds k r f h o rt run there_r there done out =
      let (rt', joined, pool, ready, look) =
        join_leaves rounds k r f h o rt run there_r there done out in
      (
        to_join_result o,
        rt',
        joined,
        (λ n e. ap to_join_result e),
        (λ p e. ap to_join_result e),
        pool,
        ready,
        look,
      )

  -- A fiber that has completed may still wait for children. If it is joined then, the departure of
  -- such a child panics: its parent's index is vacant, and the parent's stack is in the pool.
  pub join-orphans :
      (rounds : List (List Cqe)) (k r c : ℕ) (f h g : FiberState) (o : Output) (rt : Runtime S)
      → rt.running_fiber ≡ some r
      → S.get rt.fibers r ≡ some h
      → S.get rt.fibers k ≡ some f
      → f.is_completed ≡ true
      → rt.memory f.stack ≡ some (output o)
      → S.get rt.fibers c ≡ some g
      → g.parent ≡ some k
      → c ≢ k
      → (rt' : Runtime S) × (join S rounds k rt ≡ returns (finished (to_join_result o) rt'))
        × (rt'.stack_pool ≡ f.stack ∷ rt.stack_pool)
        × (leave_parent S c rt' ≡ panics)
  unfolding leave_parent
  join-orphans rounds k r c f h g o rt run there_r there done out there_c up ne =
      let (rt', joined, pool, ready, look) =
        join_leaves rounds k r f h o rt run there_r there done out in
      (rt', joined, pool, ground (arith, look c, look k, there_c, up))
