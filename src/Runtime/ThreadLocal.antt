-- ===== src/Runtime/ThreadLocal.antt =====
-- src/runtime/tls.rs: the runtime of the thread, in a cell that can be borrowed once at a time.
pub mod Nesting
use uringy.Common.{
  ℕ, ◌≡◌, Bool, true, false, not, Option, none, some, Panics, returns, panics, ◌>>=◌, ◌>>◌, assert,
  is_some,
}

-- A `RefCell<Option<R>>`; `borrowed` while something holds it mutably.
pub data Cell (R : Type 0) : Type 0 where
  holds : Option R → Cell R
  borrowed : Cell R

-- `RefCell::borrow_mut`
abbrev pub borrow_mut : {R : Type 0} → Cell R → Panics (Option R)
borrow_mut (holds o) = returns o
borrow_mut borrowed = panics

abbrev pub expect_runtime : {R : Type 0} → Option R → Panics R
expect_runtime (some rt) = returns rt
expect_runtime none = panics

module _ {R : Type 0} where
  -- `exclusive_runtime`. The closure gets the cell, and leaves it as it does; `new` is
  -- `RuntimeState::new`.
  unfoldable pub exclusive_runtime :
      {T : Type 0} → R → (Cell R → Panics (T × Cell R)) → Cell R → Panics (T × Cell R)
  exclusive_runtime new f cell = do
    before ← borrow_mut cell
    u ← assert (not (is_some before))
    (output, cell') ← f (holds (some new))
    after ← borrow_mut cell'
    returns (output, holds none)

  -- `runtime`. The closure runs while the cell is borrowed.
  unfoldable pub runtime :
      {T : Type 0} → (R → Cell R → Panics (T × R)) → Cell R → Panics (T × Cell R)
  runtime f cell = do
    before ← borrow_mut cell
    rt ← expect_runtime before
    (output, rt') ← f rt borrowed
    returns (output, holds (some rt'))
