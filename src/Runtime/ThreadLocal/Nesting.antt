-- ===== src/Runtime/ThreadLocal/Nesting.antt =====
-- How often a thread of src/runtime/tls.rs can have a runtime.
use uringy.Common.{◌≡◌, refl, ap, none, some, Panics, returns, panics, ◌>>=◌, arith, bind-returns}
use uringy.Runtime.ThreadLocal.{Cell, holds, borrowed, borrow_mut, exclusive_runtime, runtime}

module _ {R A : Type 0} where
  abbrev give_back : A × R → Panics (A × Cell R)
  give_back (output, rt) = returns (output, holds (some rt))

  abbrev give_up : A × Cell R → Panics (A × Cell R)
  give_up (output, cell) = borrow_mut cell >>= (λ after. returns (output, holds none))

module _ {R T U : Type 0} where
  inner :
      (new' : R) (f : Cell R → Panics (U × Cell R)) (p : Panics (T × R))
      → ((p >>= give_back) >>= (λ x. exclusive_runtime new' f (x.1))) ≡ panics
  unfolding exclusive_runtime
  inner new' f panics = refl
  inner new' f (returns (output, rt)) = refl

  -- A runtime can't be started in another, whatever has been done to the outer one with `runtime`
  -- before; nor can `runtime` be used in itself or without a runtime. When a runtime is over, the thread
  -- has none, and the next one starts as the first did.
  pub exclusive_runtime-nests :
      (new new' : R) (f : Cell R → Panics (U × Cell R)) (g : R → Cell R → Panics (T × R))
      (h : R → Cell R → Panics (U × R)) (output : U) (cell : Cell R)
      → exclusive_runtime new f (holds none) ≡ returns (output, cell)
      → (exclusive_runtime new
            (λ c. runtime g c >>= (λ x. exclusive_runtime new' f (x.1)))
            (holds none)
          ≡ panics)
        × (runtime (λ rt c. runtime h c >>= (λ x. returns (x.0, rt))) (holds (some new)) ≡ panics)
        × (runtime h (holds none) ≡ panics)
        × (exclusive_runtime new' f cell ≡ exclusive_runtime new' f (holds none))
  unfolding exclusive_runtime runtime
  exclusive_runtime-nests new new' f g h output cell e =
      let (x, e1, r1) = bind-returns (f (holds (some new))) _ (output, cell) e in
      let (o, e2, r2) = bind-returns (borrow_mut (x.1)) _ (output, cell) r1 in
      let free : cell ≡ holds none = ground (arith, r2) in
      (
        ap (λ p. p >>= give_up) (inner new' f (g new borrowed)),
        refl,
        refl,
        ap (exclusive_runtime new' f) free,
      )
