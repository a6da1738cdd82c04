-- ===== src/Runtime/Tests/Machine.antt =====
-- Runs of src/runtime/stack.rs and tls.rs. Memory is mapped from the bottom up.
use mathlib.Core.Path.{subst}
use uringy.Common.{
  ℕ, ◌+◌, ◌<◌, ◌≤◌, ◌≡◌, refl, sym, ap, ◌∙◌, ◌⊎◌, inl, inr, none, some, [], ◌∷◌, Elem, Result, ok,
  err, Panics, returns, panics, ◌>>=◌, arith, ltb, leb, map, Bool-cases, if◌then◌else◌,
}
use uringy.Runtime.Stack.{
  Access, unmapped, protected, read_write, Memory, Stack, base, new_stack, drop_runtime,
}
use uringy.Runtime.Stack.Guard.{new_stack-guards, new_stack-restores}
use uringy.Runtime.Stack.Pool.{drop_runtime-unmaps}
use uringy.Runtime.ThreadLocal.{Cell, holds, exclusive_runtime, runtime}
use uringy.Runtime.ThreadLocal.Nesting.{exclusive_runtime-nests}

-- The address space up to a limit; beyond it nothing is mapped.
record Mapped : Type 0 where
  limit : ℕ
  table : ℕ → Access

abbrev at : Mapped → ℕ → Access
at s a = if ltb a s.limit then s.table a else unmapped

abbrev with_range : ℕ → ℕ → Access → Mapped → Mapped
with_range p len x s = record {
  limit = s.limit;
  table = λ a. if leb p a then (if ltb a (p + len) then x else s.table a) else s.table a;
}

abbrev more : ℕ → Mapped → Mapped
more len s = record {
  limit = s.limit + len;
  table = λ a. if ltb a s.limit then s.table a else read_write;
}

abbrev map_more : ℕ → Mapped → Result ℕ ℕ × Mapped
map_more len s = (ok s.limit, more len s)

-- Protecting what is not mapped fails.
abbrev protect : ℕ → ℕ → Mapped → Result (Unit {0}) ℕ × Mapped
protect p len s =
    if leb (p + len) s.limit then (ok tt, with_range p len protected s) else (err 12, s)

abbrev unmap : ℕ → ℕ → Mapped → Result (Unit {0}) ℕ × Mapped
unmap p len s = (ok tt, with_range p len unmapped s)

map-fresh :
    (n p : ℕ) (s s' : Mapped) (a : ℕ)
    → map_more n s ≡ (ok p, s')
    → p ≤ a
    → a < p + n
    → (at s a ≡ unmapped) × (at s' a ≡ read_write)
map-fresh n p s s' a e low high =
    let start : s.limit ≡ p = ground (arith, ap (λ x. x.0) e) in
    subst (λ w. (at s a ≡ unmapped) × (at w a ≡ read_write)) (ap (λ x. x.1) e)
      (ground (arith, start), ground (arith, start))

map-others :
    (n p : ℕ) (s s' : Mapped) (a : ℕ)
    → map_more n s ≡ (ok p, s')
    → (a < p) ⊎ (p + n ≤ a)
    → at s' a ≡ at s a
map-others n p s s' a e out =
    let start : s.limit ≡ p = ground (arith, ap (λ x. x.0) e) in
    subst (λ w. at w a ≡ at s a) (ap (λ x. x.1) e) (ground (arith, start, out))

map-fails : (n x : ℕ) (s s' : Mapped) (a : ℕ) → map_more n s ≡ (err x, s') → at s' a ≡ at s a
map-fails n x s s' a e = absurd (ground (arith, ap (λ y. y.0) e))

protect-access :
    (p n : ℕ) (s s' : Mapped) (a : ℕ)
    → protect p n s ≡ (ok tt, s')
    → at s' a ≡ (if leb p a then (if ltb a (p + n) then protected else at s a) else at s a)
protect-access p n s s' a e = elim (Bool-cases (leb (p + n) s.limit)) [
  | inl fits ↦
      let made : protect p n s ≡ (ok tt, with_range p n protected s) = rw fits refl in
      subst
        (λ w. at w a ≡ (if leb p a then (if ltb a (p + n) then protected else at s a) else at s a))
        (ap (λ x. x.1) (sym made ∙ e)) (ground (arith, fits))
  | inr over ↦ absurd (ground (arith, over, ap (λ x. x.0) e))
]

protect-fails : (p n x : ℕ) (s s' : Mapped) (a : ℕ) → protect p n s ≡ (err x, s') → at s' a ≡ at s a
protect-fails p n x s s' a e = elim (Bool-cases (leb (p + n) s.limit)) [
  | inl fits ↦ absurd (ground (arith, fits, ap (λ y. y.0) e))
  | inr over ↦
      let made : protect p n s ≡ (err 12, s) = rw over refl in
      subst (λ w. at w a ≡ at s a) (ap (λ y. y.1) (sym made ∙ e)) refl
]

unmap-access :
    (p n : ℕ) (s s' : Mapped) (a : ℕ)
    → unmap p n s ≡ (ok tt, s')
    → at s' a ≡ (if leb p a then (if ltb a (p + n) then unmapped else at s a) else at s a)
unmap-access p n s s' a e =
    subst (λ w. at w a ≡ (if leb p a then (if ltb a (p + n) then unmapped else at s a) else at s a))
      (ap (λ x. x.1) e) (ground arith)

-- A page has 16 bytes.
abbrev machine : Memory
machine = record {
  Space = Mapped;
  page_size = 16;
  access = at;
  mmap = map_more;
  mprotect = protect;
  munmap = unmap;
  mmap-fresh = map-fresh;
  mmap-others = map-others;
  mmap-fails = map-fails;
  mprotect-access = protect-access;
  mprotect-fails = protect-fails;
  munmap-access = unmap-access;
}

-- A machine on which nothing can be protected.
refused-access :
    (p n : ℕ) (s s' : Mapped) (a : ℕ)
    → ◌≡◌ {A = Result (Unit {0}) ℕ × Mapped} (err 12, s) (ok tt, s')
    → at s' a ≡ (if leb p a then (if ltb a (p + n) then protected else at s a) else at s a)
refused-access p n s s' a e = absurd (ground (arith, ap (λ y. y.0) e))

abbrev open_machine : Memory
open_machine = record machine {
  mprotect = λ p n s. (err 12, s);
  mprotect-access = refused-access;
  mprotect-fails = λ p n x s s' a e. ap (λ w. at w a) (sym (ap (λ y. y.1) e));
}

abbrev bare : Mapped
bare = record { limit = 64; table = λ a. unmapped }

abbrev with_stack : Mapped
with_stack = with_range 64 16 protected (more 48 bare)

new_stack-guards_example :
    (stack : Stack) × (new_stack machine 1 2 bare ≡ returns (ok stack, with_stack))
    × ((a : ℕ)
        → at with_stack a ≡ (
            if leb 64 a
            then (if ltb a 80
                then protected
                else if ltb a (base stack)
                then read_write
                else at bare a)
            else at bare a))
new_stack-guards_example =
    new_stack-guards machine 1 2 64 bare (more 48 bare) with_stack (omega arith) refl refl

abbrev pooled : Stack
pooled = record { pointer = 64; length = 528 }

drop_runtime-unmaps_example :
    (s' : Mapped) × (drop_runtime machine (map base (pooled ∷ [])) (more 528 bare) ≡ returns s')
    × ((stack : Stack) (a : ℕ)
        → Elem stack (pooled ∷ [])
        → stack.pointer ≤ a
        → a < base stack
        → at s' a ≡ unmapped)
drop_runtime-unmaps_example =
    drop_runtime-unmaps machine (λ p n s aligned pos low. (with_range p n unmapped s, refl))
      (pooled ∷ []) (more 528 bare) (omega arith) (omega arith) ((refl, refl, omega arith), tt)

abbrev keep : Cell ℕ → Panics (ℕ × Cell ℕ)
keep c = returns (5, c)

abbrev running : Cell ℕ
running = holds (some 1)

abbrev idle : Cell ℕ
idle = holds none

exclusive_runtime-nests_test :
    (exclusive_runtime 1
        (λ c. runtime (λ rt d. returns (rt, rt)) c >>= (λ x. exclusive_runtime 2 keep (x.1)))
        idle
      ≡ panics)
    × (runtime (λ rt c. runtime (λ r d. returns (r, r)) c >>= (λ x. returns (x.0, rt))) running
        ≡ panics)
    × (runtime (λ r d. returns (r, r)) idle ≡ panics)
    × (exclusive_runtime 2 keep idle ≡ exclusive_runtime 2 keep idle)
unfolding exclusive_runtime
exclusive_runtime-nests_test =
    exclusive_runtime-nests 1 2 keep (λ rt d. returns (rt, rt)) (λ r d. returns (r, r)) 5 idle refl

refused :
    new_stack open_machine 1 2 bare ≡ returns (err 12, with_range 64 48 unmapped (more 48 bare))
unfolding new_stack
refused = refl

new_stack-restores_example : at (with_range 64 48 unmapped (more 48 bare)) 70 ≡ at bare 70
new_stack-restores_example =
    new_stack-restores open_machine 1 2 12 bare (with_range 64 48 unmapped (more 48 bare)) refused
      70
