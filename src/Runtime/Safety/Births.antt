-- ===== src/Runtime/Safety/Births.antt =====
-- `start` and `spawn` of src/runtime/mod.rs on sound runtimes.
use native.Mathlib.Decide.{ℕ_discrete}
use mathlib.Core.Path.{subst}
use uringy.Common.{
  false, ℕ, ◌≡◌, refl, sym, ap, ◌∙◌, ◌≢◌, inl, inr, Option, none, some, List, [], ◌∷◌, ◌++◌, Elem,
  arith, returns, ◌==◌, if◌then◌else◌,
}
use uringy.Runtime.Slab.{Slab}
use uringy.Runtime.State.{
  closure, FiberState, Runtime, new_runtime, set_insert, spawn_trampoline, start_trampoline,
  write_union,
}
use uringy.Runtime.Fibers.{take_stack, new_fiber, start, spawn}
use uringy.Runtime.Fibers.Family.{IsOrdered, Elem-set_insert, spawn_lem}
use uringy.Runtime.Safety.{Has, IsLinked, IsRunning}
use uringy.Runtime.Safety.Growth.{
  Grown, Extends, set_insert-IsOrdered, Grown-IsSound, Grown-IsLinked, Grown-IsLinked_child,
}

module _ (S : Slab FiberState) where
  abbrev adopt : ℕ → FiberState → FiberState
  adopt child g = record g { children = set_insert child g.children }

  adopt-Extends : (p child : ℕ) (g : FiberState) → Extends S p child p g (adopt child g)
  adopt-Extends p child g = record {
    parent = refl;
    join_handle = refl;
    more = λ c m. (Elem-set_insert child c g.children).1 (inr m);
    added = λ _. (Elem-set_insert child child g.children).1 (inl refl);
    from = λ c m. elim ((Elem-set_insert child c g.children).0 m) [
      | inl e ↦ inr (refl, e)
      | inr old ↦ inl old
    ];
    order = λ o. set_insert-IsOrdered child g.children o;
  }

  -- A fiber that runs and spawns another goes on in a sound runtime, and the new fiber has not left.
  pub spawn-IsRunning :
      (new_stack : Option ℕ) (f base : ℕ) (pool : List ℕ) (rt : Runtime S) (r : ℕ)
      → IsRunning S rt r
      → take_stack new_stack rt.stack_pool ≡ returns (base, pool)
      → (child : ℕ) × (rt' : Runtime S) × (spawn S new_stack f rt ≡ returns (child, rt'))
        × IsRunning S rt' r
        × ((born : FiberState) × Has S rt' child born
            × (born.is_completed ≡ false)
            × (born.stack ≡ base)
            × (born.parent ≡ some r))
        × (rt'.ready_fibers ≡ rt.ready_fibers ++ (child ∷ []))
        × IsLinked S rt' child
        × (S.get rt.fibers child ≡ none)
        × (rt'.memory base ≡ some (closure f))
  spawn-IsRunning new_stack f base pool rt r v stack =
      let (g, there, how) = v.linked in
      let (child, rt', e, fresh, look, queue, memory, runs) =
        spawn_lem S new_stack f r g rt base pool v.runs there stack in
      let other : r ≢ child = λ same. absurd (ground (arith, ap (S.get rt.fibers) same)) in
      let born : FiberState = record (new_fiber base spawn_trampoline g.is_cancelled) {
        parent = some r;
      } in
      let old : (k : ℕ) (f : FiberState) → k ≡ r → Has S rt k f → f ≡ g =
        λ k f same h. ground (arith, h, there, same) in
      let w : Grown S rt rt' r child = record {
        new = born;
        fresh = fresh;
        is_new = ground (arith, look child);
        orphan = refl;
        up = refl;
        not_joined = refl;
        kept = λ k f h. elim (ℕ_discrete k r) [
          | yes same ↦ (
            adopt child g,
            ground (arith, look k),
            subst (λ j. Extends S r child j f (adopt child g)) (sym same)
                (subst (λ x. Extends S r child r x (adopt child g)) (sym (old k f same h))
                  (adopt-Extends r child g)),
          )
          | no ne ↦ (
            f,
            ground (arith, look k),
            record {
              parent = refl;
              join_handle = refl;
              more = λ c m. m;
              added = λ same. absurd (ne same);
              from = λ c m. inl m;
              order = λ o. o;
            },
          )
        ];
        others = λ k h ne. ground (arith, look k);
      } in
      (
        child,
        rt',
        e,
        record {
          sound = Grown-IsSound S w v.linked queue v.sound;
          runs = runs;
          linked = Grown-IsLinked S w r v.linked;
        },
        (born, w.is_new, refl, refl, refl),
        queue,
        Grown-IsLinked_child S w (g, there, how),
        fresh,
        memory,
      )

  -- `start` on a new runtime, if the operating system gives a stack, runs fiber 0, which is the root,
  -- in a sound runtime.
  pub start-IsRunning :
      (f base : ℕ)
      → (rt : Runtime S) × (start S (some base) f (new_runtime S) ≡ returns rt) × IsRunning S rt 0
  unfolding start take_stack new_runtime
  start-IsRunning f base =
      let g : FiberState = new_fiber base start_trampoline false in
      let rt : Runtime S = record (new_runtime S) {
        memory = write_union (λ a. none) base (closure f);
        fibers = S.insert S.empty g;
        running_fiber = some (S.vacant_key S.empty);
      } in
      let look : (k : ℕ) → S.get rt.fibers k ≡ (if k == 0 then some g else none) =
        λ k. S.get-insert S.empty g k ∙ ground (arith, S.vacant_key-empty, S.get-empty k) in
      let root : Has S rt 0 g = look 0 in
      let only : (k : ℕ) (h : FiberState) → Has S rt k h → h ≡ g =
        λ k h there. ground (arith, look k, there) in
      let childless : (k c : ℕ) (h : FiberState) → Has S rt k h → Elem c h.children → ⊥ =
        λ k c h there m. (subst (λ x. Elem c x.children) (only k h there) m) in
      (
        rt,
        refl,
        record {
          sound = record {
            tree = record {
              rank = λ k. 0;
              ranked = record {
                present = λ k c h there m. absurd (childless k c h there m);
                falls = λ k c h there m. absurd (childless k c h there m);
              };
              parent_of = λ k c h h' there m. absurd (childless k c h there m);
              ordered = λ k h there. subst (λ x. IsOrdered x.children) (sym (only k h there)) tt;
              parents_linked = λ k c h there m. absurd (childless k c h there m);
              root = (g, root, refl);
            };
            ready_linked = λ k m. absurd m;
            joiner_linked = λ k j h there e. absurd (ground (arith, only k h there, e));
            unjoined = λ k h l there e. absurd (ground (arith, only k h there, e));
          };
          runs = ap some S.vacant_key-empty;
          linked = (g, root, inl refl);
        },
      )
