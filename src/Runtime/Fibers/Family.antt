-- ===== src/Runtime/Fibers/Family.antt =====
-- Parents and children in src/runtime/mod.rs: what `spawn` links, and what a fiber that leaves unlinks.
use native.Mathlib.Decide.{ℕ_discrete}
use uringy.Common.{
  ℕ, ◌<◌, ◌≡◌, refl, ap, ◌≢◌, ◌⊎◌, ◌↔◌, inl, inr, Bool, false, ◌&&◌, Option, none, some, List, [],
  ◌∷◌, ◌++◌, returns, ◌==◌, if◌then◌else◌, arith, Elem, contains,
}
use uringy.Runtime.Slab.{Slab}
use uringy.Runtime.State.{
  spawn_trampoline, prepared, unused, closure, FiberState, Runtime, set_insert, set_remove,
  set_is_empty, write_union,
}
use uringy.Runtime.Scheduler.{schedule_with}
use uringy.Runtime.Fibers.{take_stack, new_fiber, spawn, leave_parent}

-- In ascending order and with no element twice, as a `BTreeSet` is, above a bound.
abbrev pub Ascends : ℕ → List ℕ → Type 0
Ascends low [] = Unit {0}
Ascends low (x ∷ xs) = (low < x) × Ascends x xs

abbrev pub IsOrdered : List ℕ → Type 0
IsOrdered [] = Unit {0}
IsOrdered (x ∷ xs) = Ascends x xs

Elem-above : (low a : ℕ) (xs : List ℕ) → Ascends low xs → Elem a xs → low < a
Elem-above low a [] v m = absurd m
Elem-above low a (x ∷ xs) v (inl e) = omega arith
Elem-above low a (x ∷ xs) v (inr m) = omega (arith, Elem-above x a xs v.1 m)

pub Ascends-IsOrdered : (low : ℕ) (xs : List ℕ) → Ascends low xs → IsOrdered xs
Ascends-IsOrdered low [] v = tt
Ascends-IsOrdered low (x ∷ xs) v = v.1

-- `BTreeSet::insert` adds its element and `BTreeSet::remove` takes it out.
pub Elem-set_insert : (a c : ℕ) (xs : List ℕ) → Elem c (set_insert a xs) ↔ ((c ≡ a) ⊎ Elem c xs)
unfolding set_insert
Elem-set_insert a c [] = ground arith
Elem-set_insert a c (x ∷ xs) = elim (ℕ_discrete a x) [
  | yes e ↦ ground arith
  | no ne ↦ ground (arith, Elem-set_insert a c xs)
]

pub Elem-set_remove :
    (a c : ℕ) (xs : List ℕ) → IsOrdered xs → Elem c (set_remove a xs) ↔ (Elem c xs × (c ≢ a))
unfolding set_remove
Elem-set_remove a c [] v = ((λ m. absurd m), (λ m. absurd m.0))
Elem-set_remove a c (x ∷ xs) v = elim (ℕ_discrete a x) [
  | yes e ↦ ground (arith, Elem-above x c xs v)
  | no ne ↦ ground (arith, Elem-set_remove a c xs (Ascends-IsOrdered x xs v))
]

module _ (S : Slab FiberState) where
  -- A spawned fiber is new, inherits the parent's cancellation, is not complete and has no children;
  -- it is linked to its parent both ways, goes to the back of the ready queue, and no other fiber
  -- changes; the parent still runs. This needs a stack: one of the pool or one of the operating system.
  pub spawn_lem :
      (new_stack : Option ℕ) (f p : ℕ) (parent : FiberState) (rt : Runtime S) (base : ℕ)
      (pool : List ℕ)
      → rt.running_fiber ≡ some p
      → S.get rt.fibers p ≡ some parent
      → take_stack new_stack rt.stack_pool ≡ returns (base, pool)
      → (child : ℕ) × (rt' : Runtime S) × (spawn S new_stack f rt ≡ returns (child, rt'))
        × (S.get rt.fibers child ≡ none)
        × ((k : ℕ)
            → S.get rt'.fibers k ≡ (
                if k == child
                then some (record {
                  stack = base;
                  continuation = prepared spawn_trampoline;
                  join_handle = unused;
                  parent = some p;
                  children = [];
                  syscall_result = none;
                  is_completed = false;
                  is_cancelled = parent.is_cancelled;
                })
                else if k == p
                then some (record parent { children = set_insert child parent.children })
                else S.get rt.fibers k))
        × (rt'.ready_fibers ≡ rt.ready_fibers ++ (child ∷ []))
        × (rt'.memory base ≡ some (closure f))
        × (rt'.running_fiber ≡ some p)
  unfolding spawn
  spawn_lem new_stack f p parent rt base pool run there stack =
      let child : ℕ = S.vacant_key rt.fibers in
      let fresh : S.get rt.fibers child ≡ none = S.get-vacant_key rt.fibers in
      let c1 : FiberState = new_fiber base spawn_trampoline parent.is_cancelled in
      let p2 : FiberState = record parent { children = set_insert child parent.children } in
      let s1 : S.Store = S.insert rt.fibers c1 in
      let s2 : S.Store = S.set s1 p p2 in
      let s3 : S.Store = S.set s2 child (record c1 { parent = some p }) in
      let other : p ≢ child = λ e. absurd (ground (arith, ap (S.get rt.fibers) e)) in
      let p1 : S.get s1 p ≡ some parent = ground (arith, S.get-insert rt.fibers c1 p) in
      let c2 : S.get s2 child ≡ some c1 =
        ground (arith, S.get-set s1 p p2 parent child p1, S.get-insert rt.fibers c1 child) in
      let look : (k : ℕ)
          → S.get s3 k ≡ (if k == child then some (record c1 { parent = some p }) else S.get s2 k) =
        λ k. S.get-set s2 child (record c1 { parent = some p }) c1 k c2 in
      let look2 : (k : ℕ) → S.get s2 k ≡ (if k == p then some p2 else S.get s1 k) =
        λ k. S.get-set s1 p p2 parent k p1 in
      (
        child,
        record rt {
          stack_pool = pool;
          memory = write_union rt.memory base (closure f);
          ready_fibers = rt.ready_fibers ++ (child ∷ []);
          fibers = s3;
        },
        ground (arith, run, there, stack, p1, c2),
        fresh,
        (λ k. ground (arith, look k, look2 k, S.get-insert rt.fibers c1 k)),
        refl,
        ground arith,
        run,
      )

  -- A child that leaves is taken off its parent's children. The parent is woken exactly if it has
  -- completed and this was its last child, and is then in the ready queue.
  pub leave_parent_lem :
      (k p : ℕ) (g parent : FiberState) (rt : Runtime S)
      → k ≢ p
      → S.get rt.fibers k ≡ some g
      → g.parent ≡ some p
      → S.get rt.fibers p ≡ some parent
      → (rt' : Runtime S) × (leave_parent S k rt ≡ returns rt')
        × ((j : ℕ)
            → S.get rt'.fibers j ≡ (
                if j == p
                then some (record parent { children = set_remove k parent.children })
                else S.get rt.fibers j))
        × (rt'.ready_fibers ≡ (
            if parent.is_completed && set_is_empty (set_remove k parent.children)
            then (if contains rt.ready_fibers p
                then rt.ready_fibers
                else rt.ready_fibers ++ (p ∷ []))
            else rt.ready_fibers))
  unfolding leave_parent schedule_with
  leave_parent_lem k p g parent rt ne there up there_p =
      let p2 : FiberState = record parent { children = set_remove k parent.children } in
      let rt1 : Runtime S = record rt { fibers = S.set rt.fibers p p2 } in
      let look : (j : ℕ) → S.get rt1.fibers j ≡ (if j == p then some p2 else S.get rt.fibers j) =
        λ j. S.get-set rt.fibers p p2 parent j there_p in
      let wake : Bool = parent.is_completed && set_is_empty (set_remove k parent.children) in
      let rt' : Runtime S = if wake then schedule_with S p rt1 else rt1 in
      let same : rt'.fibers ≡ rt1.fibers = ground arith in
      (rt', ground (arith, there, up, there_p, look p), (λ j. rw same (look j)), ground arith)
