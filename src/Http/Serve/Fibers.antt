-- ===== src/Http/Serve/Fibers.antt =====
-- The fibers that `serve` of src/ecosystem/http/server/mod.rs spawns.
use uringy.Common.{
  ℕ, ◌≡◌, refl, ap, ◌∙◌, false, none, some, List, [], ◌∷◌, returns, arith, ◌++◌, All, is_some, true,
  Option,
}
use uringy.Runtime.Slab.{Slab}
use uringy.Runtime.State.{dropped, closure, FiberState, Runtime}
use uringy.Runtime.Fibers.{take_stack}
use uringy.Runtime.Join.{drop_handle}
use uringy.Runtime.Safety.{Has, IsRunning}
use uringy.Runtime.Safety.Births.{spawn-IsRunning}
use uringy.Runtime.Safety.Joining.{drop_handle-IsRunning}
use uringy.Http.Router.{Matchit, Router, with_state}
use uringy.Http.Serve.{Connection, spawn_all, serve}

has_stack :
    (new_stack : Option ℕ) (pool : List ℕ)
    → is_some new_stack ≡ true
    → (b : ℕ) × (rest : List ℕ) × (take_stack new_stack pool ≡ returns (b, rest))
unfolding take_stack
has_stack none [] given = absurd (ground arith)
has_stack (some base) [] given = (base, [], refl)
has_stack new_stack (b ∷ pool) given = (b, pool, refl)

module _ (F : Slab FiberState) where
  -- A handle that is dropped while its fiber has not completed only says so in the fiber.
  drop_handle-open :
      (k : ℕ) (f : FiberState) (rt : Runtime F)
      → Has F rt k f
      → f.is_completed ≡ false
      → drop_handle F k rt
        ≡ returns (record rt { fibers = F.set rt.fibers k (record f { join_handle = dropped }) })
  unfolding drop_handle
  drop_handle-open k f rt there open_yet =
      ground (
        arith,
        there,
        open_yet,
        F.get-set rt.fibers k (record f { join_handle = dropped }) f k there,
      )

  -- Fiber `r` has served the connections: when each came, a fiber was made under an index that was
  -- free, as a child of `r` with no handle, with the closure of the connection on its stack, and went
  -- to the back of the ready queue.
  abbrev pub Served : ℕ → List (Connection F) → Runtime F → Runtime F → Type 0
  Served r [] rt rt' = rt ≡ rt'
  Served r (c ∷ connections) rt rt' =
      (child : ℕ) × (f : FiberState) × (next : Runtime F) × (F.get (c.meanwhile rt).fibers child
        ≡ none)
      × Has F next child f
      × (f.parent ≡ some r)
      × (f.join_handle ≡ dropped)
      × (next.memory f.stack ≡ some (closure c.closure))
      × (next.ready_fibers ≡ (c.meanwhile rt).ready_fibers ++ (child ∷ []))
      × Served r connections next rt'

  -- The operating system gives a stack, and what the other fibers do keeps the runtime sound and comes
  -- back to fiber `r`.
  abbrev pub IsServable : ℕ → Connection F → Type 0
  IsServable r c =
      (is_some c.new_stack ≡ true)
      × ((rt : Runtime F) → IsRunning F rt r → IsRunning F (c.meanwhile rt) r)

  spawn_all-Served :
      (connections : List (Connection F)) (rt : Runtime F) (r : ℕ)
      → All (IsServable r) connections
      → IsRunning F rt r
      → (rt' : Runtime F) × (spawn_all F connections rt ≡ returns rt')
        × IsRunning F rt' r
        × Served r connections rt rt'
  unfolding spawn_all
  spawn_all-Served [] rt r s v = (rt, refl, v, refl)
  spawn_all-Served (c ∷ connections) rt r ((given, back), s) v =
      let rt0 : Runtime F = c.meanwhile rt in
      let (b, rest, stack) = has_stack c.new_stack rt0.stack_pool given in
      let (child, rt1, e1, v1, (born, there, open_yet, based, up), queue1, l, fresh, written) =
        spawn-IsRunning F c.new_stack c.closure b rest rt0 r (back rt v) stack in
      let (rt2, e2, v2, queue2) =
        drop_handle-IsRunning F child r rt1 born v1 there
          (λ done. absurd (ground (arith, open_yet, done))) in
      let born' : FiberState = record born { join_handle = dropped } in
      let rt2' : Runtime F = record rt1 { fibers = F.set rt1.fibers child born' } in
      let e2' : drop_handle F child rt1 ≡ returns rt2' =
        drop_handle-open child born rt1 there open_yet in
      let same : rt2 ≡ rt2' = ground (arith, e2, e2') in
      let here : Has F rt2' child born' =
        ground (arith, F.get-set rt1.fibers child born' born child there) in
      let (rt3, e3, v3, later) = spawn_all-Served connections rt2 r s v2 in
      (
        rt3,
        ground (arith, e1, e2, e3),
        v3,
        (
          child,
          born',
          rt2,
          fresh,
          ap (λ x. F.get x.fibers child) same ∙ here,
          up,
          refl,
          ap (λ x. x.memory born.stack) same ∙ (ap rt1.memory based ∙ written),
          queue2 ∙ queue1,
          later,
        ),
      )

  -- If the operating system gives stacks, and what the other fibers do between connections keeps the
  -- runtime sound and comes back to the fiber that serves, `serve` with a router that has no state yet
  -- does not panic, and that fiber goes on in a sound runtime. For each connection it has made one new
  -- fiber, a child of its own without a handle, with the closure of that connection on its stack, at the
  -- back of the ready queue as it was when the connection came.
  pub serve-spawns :
      (S : Type 0) (M : Matchit S) (router : Router S M) (state : S)
      (connections : List (Connection F)) (rt : Runtime F) (r : ℕ)
      → All (IsServable r) connections
      → IsRunning F rt r
      → router.state ≡ none
      → (router' : Router S M) × (rt' : Runtime F) × (serve F S M router state connections rt
          ≡ returns (router', rt'))
        × (router'.state ≡ some state)
        × IsRunning F rt' r
        × Served r connections rt rt'
  unfolding serve with_state
  serve-spawns S M router state connections rt r s v fresh =
      let (rt', e, v', served) = spawn_all-Served connections rt r s v in
      (record router { state = some state }, rt', ground (arith, fresh, e), refl, v', served)
