-- ===== src/Runtime/Scheduler/Order.antt =====
-- The order in which `process_io` of src/runtime/mod.rs wakes and runs fibers.
use uringy.Common.{
  ℕ, ◌≡◌, refl, ap, ◌∙◌, ◌⊎◌, inl, inr, true, false, Option, some, List, [], ◌∷◌, ◌++◌, returns,
  ◌==◌, contains, if◌then◌else◌, arith, Elem, Bool-cases, map_option, map, Elem-append,
  Elem-append_left, Elem-append_right,
}
use uringy.Common.Int.{ℤ}
use uringy.Runtime.Slab.{Slab}
use uringy.Runtime.State.{FiberState, Runtime}
use uringy.Runtime.Scheduler.{Cqe, deliver, pop_ready, process_io, process_completed}

-- A queue without duplicates: fibers in the order in which they were woken first.
abbrev pub enqueue : List ℕ → ℕ → List ℕ
enqueue q k = if contains q k then q else q ++ (k ∷ [])

abbrev pub enqueue_all : List ℕ → List Cqe → List ℕ
enqueue_all q [] = q
enqueue_all q ((k, _) ∷ cqes) = enqueue_all (enqueue q k) cqes

-- The last result among the completions for a fiber.
abbrev pub latest : ℕ → List Cqe → Option ℤ → Option ℤ
latest k [] r = r
latest k ((j, x) ∷ cqes) r = latest k cqes (if j == k then some x else r)

abbrev pub with_latest : ℕ → List Cqe → FiberState → FiberState
with_latest k cqes f = record f { syscall_result = latest k cqes f.syscall_result }

abbrev pub Distinct : List ℕ → Type 0
Distinct [] = Unit {0}
Distinct (x ∷ xs) = (contains xs x ≡ false) × Distinct xs

contains-append :
    (xs ys : List ℕ) (a : ℕ)
    → contains (xs ++ ys) a ≡ (if contains xs a then true else contains ys a)
contains-append [] ys a = refl
contains-append (x ∷ xs) ys a = ground (arith, contains-append xs ys a)

Distinct-append :
    (xs : List ℕ) (a : ℕ) → contains xs a ≡ false → Distinct xs → Distinct (xs ++ (a ∷ []))
Distinct-append [] a h d = (refl, tt)
Distinct-append (x ∷ xs) a h (fresh, d) =
    (ground (arith, contains-append xs (a ∷ []) x), Distinct-append xs a (ground arith) d)

Distinct-enqueue : (q : List ℕ) (k : ℕ) → Distinct q → Distinct (enqueue q k)
Distinct-enqueue q k d = elim (Bool-cases (contains q k)) [
  | inl old ↦ rw old d
  | inr new ↦ rw new (Distinct-append q k new d)
]

pub Distinct-enqueue_all :
    (q : List ℕ) (cqes : List Cqe) → Distinct q → Distinct (enqueue_all q cqes)
Distinct-enqueue_all q [] d = d
Distinct-enqueue_all q ((k, _) ∷ cqes) d =
    Distinct-enqueue_all (enqueue q k) cqes (Distinct-enqueue q k d)

-- A fiber of the queue was there before, or has a completion.
pub Elem-enqueue_all :
    (j : ℕ) (q : List ℕ) (cqes : List Cqe)
    → Elem j (enqueue_all q cqes)
    → Elem j q ⊎ Elem j (map (λ c. c.0) cqes)
Elem-enqueue_all j q [] m = inl m
Elem-enqueue_all j q ((k, x) ∷ cqes) m = elim (Elem-enqueue_all j (enqueue q k) cqes m) [
  | inr later ↦ inr (inr later)
  | inl now ↦ first (Bool-cases (contains q k)) now
]
  where
    first :
        (contains q k ≡ true) ⊎ (contains q k ≡ false)
        → Elem j (enqueue q k)
        → Elem j q ⊎ ((j ≡ k) ⊎ Elem j (map (λ c. c.0) cqes))
    first (inl old) m = inl (rw old at m)
    first (inr new) m = elim (Elem-append j q (k ∷ []) (rw new at m)) [
      | inl there ↦ inl there
      | inr (inl e) ↦ inr (inl e)
      | inr (inr never) ↦ absurd never
    ]

module _ (S : Slab FiberState) where
  -- Delivering completions records the last one of each fiber, and wakes the fibers in order.
  pub deliver_lem :
      (cqes : List Cqe) (rt : Runtime S)
      → ((k : ℕ) → Elem k (map (λ c. c.0) cqes) → (f : FiberState) × (S.get rt.fibers k ≡ some f))
      → (rt' : Runtime S) × (deliver S cqes rt ≡ returns rt')
        × (rt'.ready_fibers ≡ enqueue_all rt.ready_fibers cqes)
        × ((k : ℕ) → S.get rt'.fibers k ≡ map_option (with_latest k cqes) (S.get rt.fibers k))
  unfolding deliver
  deliver_lem [] rt there = (rt, refl, refl, λ k. ground arith)
  deliver_lem ((u, x) ∷ cqes) rt there =
      let (f, there_u) = there u (inl refl) in
      let f' : FiberState = record f { syscall_result = some x } in
      let rt1 : Runtime S = record rt { fibers = S.set rt.fibers u f' } in
      let rt2 : Runtime S = record rt1 { ready_fibers = enqueue rt.ready_fibers u } in
      let look : (j : ℕ) → S.get rt1.fibers j ≡ (if j == u then some f' else S.get rt.fibers j) =
        λ j. S.get-set rt.fibers u f' f j there_u in
      let (rt', e, ready, results) = deliver_lem cqes rt2 (λ j m.
        let (g, there_j) = there j (inr m) in
        (if j == u then f' else g, ground (arith, look j, there_j))) in
      (rt', ground (arith, there_u, e), ready, λ j. ground (arith, results j, look j, there_u))

  -- One round of `process_io` in which some fiber is ready or completes: the fibers that completed
  -- are woken behind the ready ones, in the order of their completions and none twice, the first of
  -- the queue runs, and every completion is recorded with its fiber.
  pub process_io_lem :
      (rounds : List (List Cqe)) (cqes : List Cqe) (rt : Runtime S) (k : ℕ) (ks : List ℕ)
      → ((j : ℕ)
          → Elem j (rt.ready_fibers ++ map (λ c. c.0) (process_completed cqes))
          → (f : FiberState) × (S.get rt.fibers j ≡ some f))
      → Distinct rt.ready_fibers
      → enqueue_all rt.ready_fibers (process_completed cqes) ≡ k ∷ ks
      → (rt' : Runtime S) × (process_io S (cqes ∷ rounds) rt ≡ returns (some rt'))
        × (rt'.running_fiber ≡ some k)
        × (rt'.ready_fibers ≡ ks)
        × Distinct (k ∷ ks)
        × ((j : ℕ)
            → S.get rt'.fibers j
              ≡ map_option (with_latest j (process_completed cqes)) (S.get rt.fibers j))
  unfolding process_io pop_ready
  process_io_lem rounds cqes rt k ks there d queue =
      let cs : List Cqe = process_completed cqes in
      let (rt1, delivered, ready, results) =
        deliver_lem cs rt
          (λ j m. there j (Elem-append_right j rt.ready_fibers (map (λ c. c.0) cs) m)) in
      let known : Elem k rt.ready_fibers ⊎ Elem k (map (λ c. c.0) cs) =
        Elem-enqueue_all k rt.ready_fibers cs (rw queue (inl refl)) in
      let (g, there_k) = present known in
      let there_k' : S.get rt1.fibers k
          ≡ some (record g { syscall_result = latest k cs g.syscall_result }) =
        results k ∙ ap (map_option (with_latest k cs)) there_k in
      let front : rt1.ready_fibers ≡ k ∷ ks = ready ∙ queue in
      (
        record rt1 { running_fiber = some k; ready_fibers = ks },
        ground (arith, delivered, front, there_k'),
        refl,
        refl,
        rw queue at (Distinct-enqueue_all rt.ready_fibers cs d),
        results,
      )
    where
      present :
          Elem k rt.ready_fibers ⊎ Elem k (map (λ c. c.0) (process_completed cqes))
          → (f : FiberState) × (S.get rt.fibers k ≡ some f)
      present (inl m) =
          there k (Elem-append_left k rt.ready_fibers (map (λ c. c.0) (process_completed cqes)) m)
      present (inr m) =
          there k (Elem-append_right k rt.ready_fibers (map (λ c. c.0) (process_completed cqes)) m)
