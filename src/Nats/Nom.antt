-- ===== src/Nats/Nom.antt =====
-- The `nom` crate, which src/ecosystem/nats/proto.rs parses with, as a parameter: the streaming
-- parsers and the combinators that it calls, with their documented behaviour as laws.
use uringy.Common.{
  ℕ, ◌^◌, ◌<◌, ◌≡◌, ◌≢◌, Bool, true, false, Option, none, some, List, [], ◌∷◌, ◌++◌, length, All,
}
use uringy.Common.Text.{to_lower}
use uringy.Common.Decimal.{is_digit, AreDigits, digits_value}

-- `nom::IResult`: what is left of the input and the value, or one of the three errors.
pub data IResult (A : Type 0) : Type 0 where
  done : List ℕ → A → IResult A
  incomplete error failure : IResult A

abbrev pub Parser : Type 0 → Type 0
Parser A = List ℕ → IResult A

abbrev pub opt_result {ℓ} : {A : Type 0} {B : Type ℓ} → IResult A → (List ℕ → A → B) → B → B → B → B
opt_result (done rest a) f i e x = f rest a
opt_result incomplete f i e x = i
opt_result error f i e x = e
opt_result failure f i e x = x

pub record Nom : Type 1 where
  pub tag : List ℕ → Parser (List ℕ)
  pub tag_no_case : List ℕ → Parser (List ℕ)
  pub take_till1 : (ℕ → Bool) → Parser (List ℕ)
  pub take_while1 : (ℕ → Bool) → Parser (List ℕ)
  pub u64 : Parser ℕ
  pub take : ℕ → Parser (List ℕ)
  pub alt : {A : Type 0} → List (Parser A) → Parser A
  pub opt : {A : Type 0} → Parser A → Parser (Option A)
  pub terminated : {A B : Type 0} → Parser A → Parser B → Parser A
  pub map_res : {A B : Type 0} → Parser A → (A → Option B) → Parser B
  pub tag-done : (t rest : List ℕ) → tag t (t ++ rest) ≡ done rest t
  pub tag_no_case-done : (t rest : List ℕ) → tag_no_case t (t ++ rest) ≡ done rest t
  -- A byte that differs by more than its case is an error.
  pub tag_no_case-error :
      (p q t rest : List ℕ) (a b : ℕ)
      → length p ≡ length q
      → to_lower a ≢ to_lower b
      → tag_no_case (p ++ (a ∷ t)) (q ++ (b ∷ rest)) ≡ error
  pub take_till1-done :
      (f : ℕ → Bool) (x c : ℕ) (xs rest : List ℕ)
      → All (λ y. f y ≡ false) (x ∷ xs)
      → f c ≡ true
      → take_till1 f ((x ∷ xs) ++ (c ∷ rest)) ≡ done (c ∷ rest) (x ∷ xs)
  pub take_while1-done :
      (f : ℕ → Bool) (x c : ℕ) (xs rest : List ℕ)
      → All (λ y. f y ≡ true) (x ∷ xs)
      → f c ≡ false
      → take_while1 f ((x ∷ xs) ++ (c ∷ rest)) ≡ done (c ∷ rest) (x ∷ xs)
  pub take_while1-error :
      (f : ℕ → Bool) (c : ℕ) (rest : List ℕ) → f c ≡ false → take_while1 f (c ∷ rest) ≡ error
  pub u64-done :
      (x c : ℕ) (xs rest : List ℕ)
      → AreDigits (x ∷ xs)
      → is_digit c ≡ false
      → digits_value 0 (x ∷ xs) < 2 ^ 64
      → u64 ((x ∷ xs) ++ (c ∷ rest)) ≡ done (c ∷ rest) (digits_value 0 (x ∷ xs))
  pub take-done : (xs rest : List ℕ) → take (length xs) (xs ++ rest) ≡ done rest xs
  pub alt-nil : {A : Type 0} (i : List ℕ) → alt {A = A} [] i ≡ error
  pub alt-cons :
      {A : Type 0} (p : Parser A) (ps : List (Parser A)) (i : List ℕ)
      → alt (p ∷ ps) i ≡ opt_result (p i) done incomplete (alt ps i) failure
  pub opt_lem :
      {A : Type 0} (p : Parser A) (i : List ℕ)
      → opt p i ≡ opt_result (p i) (λ rest a. done rest (some a)) incomplete (done i none) failure
  pub terminated_lem :
      {A B : Type 0} (p : Parser A) (q : Parser B) (i : List ℕ)
      → terminated p q i
        ≡ opt_result
            (p i)
            (λ rest a. opt_result (q rest) (λ rest' _. done rest' a) incomplete error failure)
            incomplete
            error
            failure
  pub map_res_lem :
      {A B : Type 0} (p : Parser A) (f : A → Option B) (i : List ℕ)
      → map_res p f i
        ≡ opt_result
            (p i)
            (λ rest a. elim (f a) [ some b ↦ done rest b | none ↦ error ])
            incomplete
            error
            failure
