-- ===== src/Runtime.antt =====
-- src/runtime: fibers, the scheduler, structured concurrency and cancellation.
pub mod Slab
pub mod State
pub mod Scheduler
pub mod Cancel
pub mod Fibers
pub mod Join
pub mod Calls
pub mod Stack
pub mod ThreadLocal
pub mod Safety
mod Tests
