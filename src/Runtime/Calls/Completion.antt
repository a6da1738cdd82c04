-- ===== src/Runtime/Calls/Completion.antt =====
-- From a system call to its result in src/runtime/mod.rs.
use uringy.Common.{
  ℕ, ◌+◌, ◌<◌, ◌≡◌, ◌≢◌, ap, ◌∙◌, ok, err, refl, false, none, some, List, [], ◌∷◌, ◌++◌, returns,
  ◌==◌, if◌then◌else◌, arith,
}
use uringy.Common.Int.{ℤ, pos, negsuc}
use uringy.Errors.{cancelled, original, raw_os}
use uringy.Runtime.Slab.{Slab}
use uringy.Runtime.State.{saved, issue, FiberState, Runtime}
use uringy.Runtime.Scheduler.{
  Cqe, process_io, process_completed, deliver, pop_ready, park, schedule_with, async_cancellation,
}
use uringy.Runtime.Cancel.{is_cancelled}
use uringy.Runtime.Fibers.{finished, suspended}
use uringy.Runtime.Calls.{IoResult, classify, syscall, syscall_resumed, read_syscall_result}

-- An errno other than ECANCELED is that of an OS error.
original_lem : (n : ℕ) → n ≢ 124 → classify (negsuc n) ≡ err (original (raw_os (n + 1)))
unfolding classify
original_lem n ne = ground (arith, ne)

module _ (S : Slab FiberState) where
  -- A system call that the kernel completes is issued once, under the fiber's index, and parks the
  -- fiber. With nothing else to run, the completion runs this fiber again, and it returns what the
  -- result of the kernel means: the number if it is none below zero, a cancellation for -125, which
  -- is ECANCELED, and the OS error for another negative number. The result is taken out of the fiber, and no other fiber changes. The
  -- fiber is not cancelled, and its index is not the number that is kept for cancellations.
  pub syscall-classify :
      (rounds later : List (List Cqe)) (r : ℕ) (f : FiberState) (x : ℤ) (rt : Runtime S)
      → rt.running_fiber ≡ some r
      → S.get rt.fibers r ≡ some f
      → f.is_cancelled ≡ false
      → f.syscall_result ≡ none
      → rt.ready_fibers ≡ []
      → r < async_cancellation
      → (result : IoResult) × (rt' : Runtime S) × (rt'' : Runtime S) × (syscall S
            (((r, x) ∷ []) ∷ rounds)
            rt
          ≡ returns (suspended (some rt')))
        × (rt'.running_fiber ≡ some r)
        × (rt'.kernel ≡ rt.kernel ++ (issue r ∷ []))
        × (syscall_resumed S later rt' ≡ returns (finished result rt''))
        × ((n : ℕ) → x ≡ pos n → result ≡ ok n)
        × (x ≡ negsuc 124 → result ≡ err cancelled)
        × ((n : ℕ) → x ≡ negsuc n → n ≢ 124 → result ≡ err (original (raw_os (n + 1))))
        × ((k : ℕ)
            → S.get rt''.fibers k ≡ (
                if k == r
                then some (record f { continuation = saved; syscall_result = none })
                else S.get rt.fibers k))
  unfolding syscall syscall_resumed read_syscall_result park process_io deliver pop_ready
      schedule_with is_cancelled process_completed classify
  syscall-classify rounds later r f x rt run there awake idle quiet small =
      let f1 : FiberState = record f { continuation = saved } in
      let f2 : FiberState = record f1 { syscall_result = some x } in
      let s1 : S.Store = S.set rt.fibers r f1 in
      let s2 : S.Store = S.set s1 r f2 in
      let f3 : FiberState = record f1 { syscall_result = none } in
      let s3 : S.Store = S.set s2 r f3 in
      let look1 : (k : ℕ) → S.get s1 k ≡ (if k == r then some f1 else S.get rt.fibers k) =
        λ k. S.get-set rt.fibers r f1 f k there in
      let there1 : S.get s1 r ≡ some f1 = ground (arith, look1 r) in
      let look2 : (k : ℕ) → S.get s2 k ≡ (if k == r then some f2 else S.get s1 k) =
        λ k. S.get-set s1 r f2 f1 k there1 in
      let there2 : S.get s2 r ≡ some f2 = ground (arith, look2 r) in
      let look3 : (k : ℕ) → S.get s3 k ≡ (if k == r then some f3 else S.get s2 k) =
        λ k. S.get-set s2 r f3 f2 k there2 in
      let rt' : Runtime S = record rt {
        kernel = rt.kernel ++ (issue r ∷ []);
        fibers = s2;
        running_fiber = some r;
        ready_fibers = [];
      } in
      let ordinary : (r == async_cancellation) ≡ false = ground arith in
      (
        classify x,
        rt',
        record rt' { fibers = s3 },
        ground (arith, run, there, awake, idle, quiet, there1, there2, ordinary),
        refl,
        refl,
        ground (arith, there2),
        (λ n e. ap classify e),
        (λ e. ap classify e),
        (λ n e ne. ap classify e ∙ original_lem n ne),
        (λ k. ground (arith, look1 k, look2 k, look3 k)),
      )
