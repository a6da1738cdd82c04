-- ===== src/Runtime/Tests/Serving.antt =====
-- A run of `serve` of src/ecosystem/http/server/mod.rs in a new runtime.
use mathlib.Core.Path.{subst}
use uringy.Common.{ℕ, ◌≡◌, refl, sym, ◌∙◌, none, some, [], ◌∷◌, Panics, returns, arith}
use uringy.Runtime.State.{Runtime, new_runtime}
use uringy.Runtime.Fibers.{start}
use uringy.Runtime.Safety.{IsRunning}
use uringy.Runtime.Safety.Births.{start-IsRunning}
use uringy.Runtime.Tests.{slots}
use uringy.Runtime.Tests.Lifecycle.{at_start}
use uringy.Http.Router.{Matchit, Router}
use uringy.Runtime.Scheduler.{schedule_with}
use uringy.Runtime.Safety.Waking.{schedule_with-IsRunning}
use uringy.Http.Serve.{Connection, serve}
use uringy.Http.Serve.Fibers.{Served, serve-spawns}

-- A matcher that takes no route.
abbrev nowhere : Matchit ℕ
nowhere = record {
  Store = Unit {0};
  empty_matcher = tt;
  at = λ s p. none;
  update = λ s p v. s;
  insert = λ s p v. none;
  IsStatic = λ p. Unit {0};
  Matches = λ pattern_ p. Unit {0};
  at-empty = λ p. refl;
  at-update = λ s p v w e. absurd (ground (arith, e));
  at-insert = λ s s' p v static e. absurd (ground (arith, e));
  at-insert-matches = λ s s' pattern_ p v m free e. absurd (ground (arith, e));
}

abbrev router : Router ℕ nowhere
router = record {
  matcher = tt;
  matcher_paths = [];
  fallback = λ r request state. none;
  state = none;
}

at_start-IsRunning : IsRunning slots at_start 0
unfolding start new_runtime
at_start-IsRunning =
    let (rt, e, v) = start-IsRunning slots 7 4096 in
    let same : ◌≡◌ {A = Panics (Runtime slots)} (returns rt) (returns at_start) = sym e ∙ refl in
    subst (λ x. IsRunning slots x 0) (ground arith) v

-- The first connection is there, and before the second the fiber that serves has been woken.
abbrev first : Connection slots
first = record { new_stack = some 8192; closure = 1; meanwhile = λ rt. rt }

abbrev second : Connection slots
second = record { new_stack = some 12288; closure = 2; meanwhile = schedule_with slots 0 }

serve-spawns_example :
    (router' : Router ℕ nowhere) × (rt' : Runtime slots) × (serve slots ℕ nowhere router 5
        (first ∷ second ∷ [])
        at_start
      ≡ returns (router', rt'))
    × (router'.state ≡ some 5)
    × IsRunning slots rt' 0
    × Served slots 0 (first ∷ second ∷ []) at_start rt'
serve-spawns_example =
    serve-spawns slots ℕ nowhere router 5 (first ∷ second ∷ []) at_start 0
      ((refl, λ rt v. v), ((refl, λ rt v. schedule_with-IsRunning slots 0 0 rt v v.linked), tt))
      at_start-IsRunning refl
