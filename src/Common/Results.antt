-- ===== src/Common/Results.antt =====
-- Panics, and `crate::Error` with the result types of `src/lib.rs`.
use mathlib.Core.Bool.{Bool, true, false}
use mathlib.Core.Path.{◌≡◌, refl}

-- A computation that returns or panics.
pub data Panics {ℓ} (A : Type ℓ) : Type ℓ where
  returns : A → Panics A
  panics : Panics A

-- Rust's `Result`.
pub data Result {ℓ κ} (A : Type ℓ) (E : Type κ) : Type (ℓ ⊔ κ) where
  ok : A → Result A E
  err : E → Result A E

infixl 5 ◌>>=◌ ◌>>◌
abbrev pub ◌>>=◌ {ℓ κ} : {A : Type ℓ} {B : Type κ} → Panics A → (A → Panics B) → Panics B
returns a >>= f = f a
panics >>= f = panics

abbrev pub ◌>>◌ {ℓ} : {B : Type ℓ} → Panics (Unit {0}) → Panics B → Panics B
m >> k = m >>= λ _. k

-- `assert!`
abbrev pub assert : Bool → Panics (Unit {0})
assert true = returns tt
assert false = panics

-- What returns has returned at each step.
pub bind-returns {ℓ κ} :
    {A : Type ℓ} {B : Type κ} (p : Panics A) (f : A → Panics B) (b : B)
    → p >>= f ≡ returns b
    → (a : A) × (p ≡ returns a) × (f a ≡ returns b)
bind-returns (returns a) f b e = (a, refl, e)
bind-returns panics f b e = absurd (cc)
