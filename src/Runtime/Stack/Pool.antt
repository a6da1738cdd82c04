-- ===== src/Runtime/Stack/Pool.antt =====
-- `Drop for RuntimeState` of src/runtime/mod.rs.
use uringy.Common.{
  ℕ, ◌+◌, ◌-◌, ◌*◌, ◌^◌, ◌<◌, ◌≤◌, ◌≡◌, refl, ap, inl, inr, List, [], ◌∷◌, ok, returns, arith, ltb,
  ◌%◌, ◌∙◌, leb, if◌then◌else◌, map, Elem, All,
}
use uringy.Runtime.Stack.{unmapped, Memory, Stack, base, drop_stack, drain_pool, drop_runtime}
use uringy.Runtime.Stack.Guard.{drop_stack-unmaps}

module _ (M : Memory) where
  -- `munmap` of a range that starts at a page, is not empty and lies in the 47 bits of addresses that a
  -- process has does not fail, also if nothing is mapped there. The limit on the number of mappings,
  -- which a call that splits one can meet, is taken to be far.
  abbrev pub Unmaps : Type 0
  Unmaps =
      (p n : ℕ) (s : M.Space)
      → p % M.page_size ≡ 0
      → 0 < n
      → p + n ≤ 2 ^ 47
      → (s' : M.Space) × (M.munmap p n s ≡ (ok tt, s'))

  -- A stack as `mmap` gives it: of this length, from a page on.
  abbrev pub IsMade : ℕ → Stack → Type 0
  IsMade n stack =
      (stack.length ≡ n)
      × (stack.pointer % M.page_size ≡ 0)
      × (stack.pointer + stack.length ≤ 2 ^ 47)

  drain_pool-unmaps :
      Unmaps
      → (n : ℕ) (stacks : List Stack) (s : M.Space) → 0 < n
      → All (IsMade n) stacks
      → (s' : M.Space) × (drain_pool M n (map base stacks) s ≡ returns s')
        × ((a : ℕ) → M.access s a ≡ unmapped → M.access s' a ≡ unmapped)
        × ((stack : Stack) (a : ℕ)
            → Elem stack stacks
            → stack.pointer ≤ a
            → a < base stack
            → M.access s' a ≡ unmapped)
  unfolding drain_pool drop_stack base
  drain_pool-unmaps unmaps n [] s pos sized =
      (s, refl, (λ a free. free), (λ stack a there. absurd there))
  drain_pool-unmaps unmaps n (stack ∷ stacks) s pos ((size, aligned, below), sized) =
      let bottom : Stack = record { pointer = base stack - n; length = n } in
      let start : bottom.pointer ≡ stack.pointer = omega (arith, size) in
      let (s1, e1) =
        unmaps bottom.pointer n s (ap (λ p. p % M.page_size) start ∙ aligned) pos
          (omega (arith, size, below)) in
      let dropping : drop_stack M bottom s ≡ returns s1 = ground (arith, e1) in
      let gone : (a : ℕ)
          → M.access s1 a ≡ (
              if leb bottom.pointer a
              then (if ltb a (base bottom) then unmapped else M.access s a)
              else M.access s a) =
        λ a. drop_stack-unmaps M bottom s s1 dropping a in
      let (s2, e2, keeps, later) = drain_pool-unmaps unmaps n stacks s1 pos sized in
      (
        s2,
        rw e1 e2,
        (λ a free. keeps a (ground (arith, gone a, free))),
        λ other a there above below. elim there [
          | inl same ↦
              let low : bottom.pointer ≤ a = omega (arith, ap (λ x. x.pointer) same) in
              let high : a < base bottom =
                omega (arith, ap (λ x. x.pointer) same, ap (λ x. x.length) same) in
              keeps a (ground (arith, gone a, low, high))
          | inr m ↦ later other a m above below
        ],
      )

  -- When the runtime is dropped, every stack of its pool is unmapped, if the stacks have the length
  -- that `create_fiber` gives them, start at a page and lie in the addresses of a process: the base
  -- minus the length is where a stack starts. `munmap` of such a range is taken not to fail.
  pub drop_runtime-unmaps :
      Unmaps
      → (stacks : List Stack) (s : M.Space) → 0 < M.page_size
      → (1 + 32) * M.page_size < 2 ^ 64
      → All (IsMade ((1 + 32) * M.page_size)) stacks
      → (s' : M.Space) × (drop_runtime M (map base stacks) s ≡ returns s')
        × ((stack : Stack) (a : ℕ)
            → Elem stack stacks
            → stack.pointer ≤ a
            → a < base stack
            → M.access s' a ≡ unmapped)
  unfolding drop_runtime
  drop_runtime-unmaps unmaps stacks s paged fits made =
      let (s', e, keeps, gone) =
        drain_pool-unmaps unmaps ((1 + 32) * M.page_size) stacks s (omega arith) made in
      (s', ground (arith, fits, e), gone)
