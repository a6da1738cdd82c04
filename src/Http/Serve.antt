-- ===== src/Http/Serve.antt =====
-- `serve` of src/ecosystem/http/server/mod.rs: a fiber for each connection, whose join handle is dropped
-- at once.
pub mod Fibers
use uringy.Common.{ℕ, ◌≡◌, Option, none, some, List, [], ◌∷◌, Panics, returns, panics, ◌>>=◌}
use uringy.Runtime.Slab.{Slab}
use uringy.Runtime.State.{FiberState, Runtime}
use uringy.Runtime.Fibers.{spawn}
use uringy.Runtime.Join.{drop_handle}
use uringy.Http.Router.{Matchit, Router, with_state}

module _ (F : Slab FiberState) where
  -- A connection comes with the stack that the operating system gives if the pool is empty, with the
  -- closure that handles it, and with what other fibers do to the runtime before it comes: the iterator
  -- may park in `accept`.
  pub record Connection : Type 0 where
    pub new_stack : Option ℕ
    pub closure : ℕ
    pub meanwhile : Runtime F → Runtime F

  -- The loop over the connections.
  unfoldable pub spawn_all : List Connection → Runtime F → Panics (Runtime F)
  spawn_all [] rt = returns rt
  spawn_all (connection ∷ connections) rt = do
    (child, rt1) ← spawn F connection.new_stack connection.closure (connection.meanwhile rt)
    rt2 ← drop_handle F child rt1
    spawn_all connections rt2

  module _ (S : Type 0) (M : Matchit S) where
    -- `serve`, until there are no more connections
    unfoldable pub serve :
        Router S M → S → List Connection → Runtime F → Panics (Router S M × Runtime F)
    unfolding with_state spawn_all
    serve router state connections rt = do
      router' ← with_state S M state router
      rt' ← spawn_all connections rt
      returns (router', rt')
