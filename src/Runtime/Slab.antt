-- ===== src/Runtime/Slab.antt =====
-- The `slab` crate, which src/runtime/mod.rs keeps its fibers in, as a parameter: the operations that
-- the runtime calls, with their documented behaviour as laws. Indexing panics at a vacant key, which
-- the callers write out.
use uringy.Common.{ℕ, ◌≡◌, Option, none, some, ◌==◌, if◌then◌else◌}

pub record Slab (A : Type 0) : Type 1 where
  pub Store : Type 0
  pub empty : Store
  -- The key that the next `insert` gives.
  pub vacant_key : Store → ℕ
  pub insert : Store → A → Store
  pub get : Store → ℕ → Option A
  -- Assignment through `IndexMut`, at an occupied key.
  pub set : Store → ℕ → A → Store
  pub remove : Store → ℕ → Store
  pub vacant_key-empty : vacant_key empty ≡ 0
  pub get-empty : (k : ℕ) → get empty k ≡ none
  pub get-vacant_key : (s : Store) → get s (vacant_key s) ≡ none
  pub get-insert :
      (s : Store) (a : A) (k : ℕ)
      → get (insert s a) k ≡ (if k == vacant_key s then some a else get s k)
  pub get-set :
      (s : Store) (j : ℕ) (a b : A) (k : ℕ)
      → get s j ≡ some b
      → get (set s j a) k ≡ (if k == j then some a else get s k)
  pub get-remove : (s : Store) (j k : ℕ) → get (remove s j) k ≡ (if k == j then none else get s k)
