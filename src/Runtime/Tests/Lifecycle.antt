-- ===== src/Runtime/Tests/Lifecycle.antt =====
-- A life of two fibers of src/runtime/mod.rs: the root starts, spawns a fiber and yields; the fiber
-- ends; the root joins it.
use uringy.Common.{true, false, Option, none, some, [], ◌∷◌, Panics, returns, panics}
use uringy.Runtime.State.{spawn_trampoline, value, FiberState, Runtime, new_runtime}
use uringy.Runtime.Scheduler.{yield_now}
use uringy.Runtime.Fibers.{new_fiber, Progress, finished, suspended, start, spawn, spawn_returned}
use uringy.Runtime.Join.{join}
use uringy.Runtime.Safety.Steps.{Reach}
use uringy.Runtime.Tests.{slots}

abbrev pub nothing : Runtime slots
nothing = new_runtime slots

abbrev pub returned : {A : Type 0} → A → Panics A → A
returned a (returns b) = b
returned a panics = a

abbrev next_of : Panics (Option (Runtime slots)) → Runtime slots
next_of (returns (some rt)) = rt
next_of (returns none) = nothing
next_of panics = nothing

abbrev progressed : {A : Type 0} → Panics (Progress A (Runtime slots)) → Runtime slots
progressed (returns (finished a rt)) = rt
progressed (returns (suspended (some rt))) = rt
progressed (returns (suspended none)) = nothing
progressed panics = nothing

abbrev pub at_start : Runtime slots
at_start = returned nothing (start slots (some 4096) 7 nothing)

abbrev after_spawn : Runtime slots
after_spawn = (returned (0, nothing) (spawn slots (some 8192) 8 at_start)).1

abbrev after_yield : Runtime slots
after_yield = next_of (yield_now slots ([] ∷ []) after_spawn)

abbrev after_end : Runtime slots
after_end = next_of (spawn_returned slots 3 ([] ∷ []) (value 5) after_yield)

abbrev after_join : Runtime slots
after_join = progressed (join slots [] 1 after_end)

abbrev ended_fiber : FiberState
ended_fiber = record (new_fiber 8192 spawn_trampoline false) {
  parent = some 0;
  is_completed = true;
  is_cancelled = true;
}
