-- ===== src/Runtime/Stack/Guard.antt =====
-- `Stack::new` of src/runtime/stack.rs.
use native.Mathlib.Nat.{mul-le-mul_right}
use uringy.Common.{
  ℕ, ◌+◌, ◌*◌, ◌^◌, ◌<◌, ◌≤◌, ◌≡◌, refl, sym, ap, ◌∙◌, inl, inr, Result, ok, err, returns, arith,
  ltb, leb, Bool-cases, if◌then◌else◌, bind-returns,
}
use uringy.Runtime.Stack.{
  usize, unmapped, protected, read_write, Memory, Stack, base, new_stack, mapped, guarded,
  drop_stack,
}

module _ (M : Memory) where
  -- If the operating system maps and protects the memory, a stack has its guard pages at the lowest
  -- addresses, which cannot be used, and pages that can be read and written up to its base; other
  -- addresses are as before.
  pub new_stack-guards :
      (guard_pages usable_pages pointer : ℕ) (s s1 s2 : M.Space)
      → (guard_pages + usable_pages) * M.page_size < 2 ^ 64
      → M.mmap ((guard_pages + usable_pages) * M.page_size) s ≡ (ok pointer, s1)
      → M.mprotect pointer (guard_pages * M.page_size) s1 ≡ (ok tt, s2)
      → (stack : Stack) × (new_stack M guard_pages usable_pages s ≡ returns (ok stack, s2))
        × ((a : ℕ)
            → M.access s2 a ≡ (
                if leb pointer a
                then (if ltb a (pointer + guard_pages * M.page_size)
                    then protected
                    else if ltb a (base stack)
                    then read_write
                    else M.access s a)
                else M.access s a))
  unfolding new_stack mapped guarded base
  new_stack-guards g u pointer s s1 s2 fits mapping guarding =
      let n : ℕ = (g + u) * M.page_size in
      let stack : Stack = record { pointer = pointer; length = n } in
      (stack, ground (arith, fits, mapping, guarding), at)
    where
      n : ℕ
      n = (g + u) * M.page_size

      low : g * M.page_size ≤ n
      low = mul-le-mul_right M.page_size (omega arith)

      look :
          (a : ℕ)
          → M.access s2 a ≡ (
              if leb pointer a
              then (if ltb a (pointer + g * M.page_size) then protected else M.access s1 a)
              else M.access s1 a)
      look a = M.mprotect-access pointer (g * M.page_size) s1 s2 a guarding

      at :
          (a : ℕ)
          → M.access s2 a ≡ (
              if leb pointer a
              then (if ltb a (pointer + g * M.page_size)
                  then protected
                  else if ltb a (pointer + n)
                  then read_write
                  else M.access s a)
              else M.access s a)
      at a = elim (Bool-cases (leb pointer a)) [
        | inl above ↦ elim (Bool-cases (ltb a (pointer + n))) [
          | inl below ↦
              let (free, usable) =
                M.mmap-fresh n pointer s s1 a mapping (ground (arith, above))
                  (ground (arith, below)) in
              ground (arith, above, below, look a, usable, low)
          | inr beyond ↦ ground (
            arith,
            above,
            beyond,
            look a,
            M.mmap-others n pointer s s1 a mapping (inr (ground (arith, beyond))),
            low,
          )
        ]
        | inr under ↦ ground (
          arith,
          under,
          look a,
          M.mmap-others n pointer s s1 a mapping (inl (ground (arith, under))),
        )
      ]

  -- The whole of a stack that is dropped is unmapped, and nothing else.
  pub drop_stack-unmaps :
      (stack : Stack) (s s' : M.Space)
      → drop_stack M stack s ≡ returns s'
      → (a : ℕ)
      → M.access s' a ≡ (
          if leb stack.pointer a
          then (if ltb a (base stack) then unmapped else M.access s a)
          else M.access s a)
  unfolding drop_stack base
  drop_stack-unmaps stack s s' e a = go (M.munmap stack.pointer stack.length s) refl
    where
      go :
          (r : Result (Unit {0}) ℕ × M.Space)
          → M.munmap stack.pointer stack.length s ≡ r
          → M.access s' a ≡ (
              if leb stack.pointer a
              then (if ltb a (stack.pointer + stack.length) then unmapped else M.access s a)
              else M.access s a)
      go (ok u, s1) gone =
          let same : s1 ≡ s' = ground (arith, e, gone) in
          M.munmap-access stack.pointer stack.length s s' a (gone ∙ ap (λ x. (ok tt, x)) same)
      go (err x, s1) gone = absurd (ground (arith, e, gone))

  -- A mapping that has been unmapped again.
  unmapped_again :
      (n pointer : ℕ) (s s1 s2 s3 : M.Space) (a : ℕ)
      → M.mmap n s ≡ (ok pointer, s1)
      → M.access s3 a ≡ (
          if leb pointer a
          then (if ltb a (pointer + n) then unmapped else M.access s2 a)
          else M.access s2 a)
      → M.access s2 a ≡ M.access s1 a
      → M.access s3 a ≡ M.access s a
  unmapped_again n pointer s s1 s2 s3 a mapping gone kept = elim (Bool-cases (leb pointer a)) [
    | inl above ↦ elim (Bool-cases (ltb a (pointer + n))) [
      | inl below ↦
          let (free, usable) =
            M.mmap-fresh n pointer s s1 a mapping (ground (arith, above)) (ground (arith, below)) in
          ground (arith, above, below, gone, free)
      | inr beyond ↦ ground (
        arith,
        above,
        beyond,
        gone,
        kept,
        M.mmap-others n pointer s s1 a mapping (inr (ground (arith, beyond))),
      )
    ]
    | inr under ↦ ground (
      arith,
      under,
      gone,
      kept,
      M.mmap-others n pointer s s1 a mapping (inl (ground (arith, under))),
    )
  ]

  -- If `Stack::new` returns an error, the address space is as before: memory that could not be protected
  -- has been unmapped again.
  pub new_stack-restores :
      (guard_pages usable_pages e : ℕ) (s s' : M.Space)
      → new_stack M guard_pages usable_pages s ≡ returns (err e, s')
      → (a : ℕ) → M.access s' a ≡ M.access s a
  unfolding new_stack mapped guarded base
  new_stack-restores g u e s s' failed a =
      let (n, sized, rest) = bind-returns (usize ((g + u) * M.page_size)) _ (err e, s') failed in
      after n rest (M.mmap n s) refl
    where
      unguarded :
          (n pointer : ℕ) (s1 : M.Space) (r : Result (Unit {0}) ℕ × M.Space)
          → M.mmap n s ≡ (ok pointer, s1)
          → M.mprotect pointer (g * M.page_size) s1 ≡ r
          → guarded M (record { pointer = pointer; length = n }) r ≡ returns (err e, s')
          → M.access s' a ≡ M.access s a
      unguarded n pointer s1 (ok x, s2) mapping guarding fails = absurd (ground (arith, fails))
      unguarded n pointer s1 (err x, s2) mapping guarding fails =
          let stack : Stack = record { pointer = pointer; length = n } in
          let (s3, dropping, rest) = bind-returns (drop_stack M stack s2) _ (err e, s') fails in
          let same : s3 ≡ s' = ground (arith, rest) in
          let gone : M.access s3 a ≡ (
              if leb pointer a
              then (if ltb a (base stack) then unmapped else M.access s2 a)
              else M.access s2 a) =
            drop_stack-unmaps stack s2 s3 dropping a in
          let kept : M.access s2 a ≡ M.access s1 a =
            M.mprotect-fails pointer (g * M.page_size) x s1 s2 a guarding in
          sym (ap (λ w. M.access w a) same)
          ∙ unmapped_again n pointer s s1 s2 s3 a mapping gone kept

      after :
          (n : ℕ)
          → mapped M (g * M.page_size) n (M.mmap n s) ≡ returns (err e, s')
          → (r : Result ℕ ℕ × M.Space) → M.mmap n s ≡ r
          → M.access s' a ≡ M.access s a
      after n fails (ok pointer, s1) mapping =
          unguarded n pointer s1 (M.mprotect pointer (g * M.page_size) s1) mapping refl
            (rw mapping at fails)
      after n fails (err x, s1) mapping =
          let same : s1 ≡ s' = ground (arith, fails, mapping) in
          sym (ap (λ w. M.access w a) same) ∙ M.mmap-fails n x s s1 a mapping
