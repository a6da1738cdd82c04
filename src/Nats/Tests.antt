-- ===== src/Nats/Tests.antt =====
-- Runs of src/ecosystem/nats/proto.rs, with parsers that behave as those of `nom` do.
use uringy.Common.{
  ℕ, ◌^◌, ◌≡◌, refl, ap, ◌∙◌, ◌≢◌, Bool, true, false, not, ◌||◌, none, some, List, [], ◌∷◌, ◌++◌,
  length, All, Result, ok, err, ltb, leb, ◌==◌, if◌then◌else◌, arith, returns, take, drop,
  length-append, take-length_append, drop-length_append,
}
use uringy.Common.Text.{codes, to_lower}
use uringy.Common.Decimal.{decimal, is_digit, digits_value}
use uringy.Nats.Nom.{Nom, IResult, done, incomplete, error, failure, Parser, opt_result}
use uringy.Nats.Proto.{Bytes, ClientOperation, ServerOperation, invalid_protocol, encode, decode}
use uringy.Nats.Wire.{is_letter, client_wire, server_wire}
use uringy.Nats.Decode.{decode-hmsg, decode-server_wire}
use uringy.Nats.Encode.{encode-client_wire}

abbrev cons : ℕ → IResult Bytes → IResult Bytes
cons b r = opt_result r (λ rest bs. done rest (b ∷ bs)) incomplete error failure

abbrev matching : (ℕ → ℕ) → Bytes → Parser Bytes
matching f [] i = done i []
matching f (a ∷ t) [] = incomplete
matching f (a ∷ t) (b ∷ i) = let rest = matching f t i in if f a == f b then cons b rest else error

abbrev span : (ℕ → Bool) → Parser Bytes
span f [] = incomplete
span f (b ∷ i) = let rest = span f i in if f b then cons b rest else done (b ∷ i) []

abbrev nonempty : IResult Bytes → IResult Bytes
nonempty (done rest []) = error
nonempty (done rest (b ∷ bs)) = done rest (b ∷ bs)
nonempty incomplete = incomplete
nonempty error = error
nonempty failure = failure

abbrev number : IResult Bytes → IResult ℕ
number r =
    opt_result r
      (λ rest bs. if ltb (digits_value 0 bs) (2 ^ 64) then done rest (digits_value 0 bs) else error)
      incomplete error failure

abbrev first_of : {A : Type 0} → List (Parser A) → Parser A
first_of [] i = error
first_of (p ∷ ps) i = opt_result (p i) done incomplete (first_of ps i) failure

matching-done : (f : ℕ → ℕ) (t rest : Bytes) → matching f t (t ++ rest) ≡ done rest t
matching-done f [] rest = refl
matching-done f (a ∷ t) rest = ground (arith, matching-done f t rest)

matching-error :
    (f : ℕ → ℕ) (p q t rest : Bytes) (a b : ℕ)
    → length p ≡ length q
    → f a ≢ f b
    → matching f (p ++ (a ∷ t)) (q ++ (b ∷ rest)) ≡ error
matching-error f [] [] t rest a b e h = ground arith
matching-error f [] (y ∷ q) t rest a b e h = absurd (omega arith)
matching-error f (x ∷ p) [] t rest a b e h = absurd (omega arith)
matching-error f (x ∷ p) (y ∷ q) t rest a b e h =
    ground (arith, matching-error f p q t rest a b (omega arith) h)

span-done :
    (f : ℕ → Bool) (c : ℕ) (xs rest : Bytes)
    → All (λ y. f y ≡ true) xs
    → f c ≡ false
    → span f (xs ++ (c ∷ rest)) ≡ done (c ∷ rest) xs
span-done f c [] rest v h = ground arith
span-done f c (x ∷ xs) rest (p, v) h = ground (arith, span-done f c xs rest v h)

All-not : (f : ℕ → Bool) (xs : Bytes) → All (λ y. f y ≡ false) xs → All (λ y. not (f y) ≡ true) xs
All-not f [] v = tt
All-not f (x ∷ xs) (p, v) = (ground arith, All-not f xs v)

abbrev parsers : Nom
parsers = record {
  tag = matching (λ b. b);
  tag_no_case = matching to_lower;
  take_till1 = λ f i. nonempty (span (λ b. not (f b)) i);
  take_while1 = λ f i. nonempty (span f i);
  u64 = λ i. number (nonempty (span is_digit i));
  take = λ n i. if leb n (length i) then done (drop n i) (take n i) else incomplete;
  alt = first_of;
  opt = λ p i. opt_result (p i) (λ rest a. done rest (some a)) incomplete (done i none) failure;
  terminated = λ p q i.
      opt_result (p i)
        (λ rest a. opt_result (q rest) (λ rest' _. done rest' a) incomplete error failure)
        incomplete error failure;
  map_res = λ p f i.
      opt_result (p i) (λ rest a. elim (f a) [ some b ↦ done rest b | none ↦ error ]) incomplete
        error failure;
  tag-done = matching-done (λ b. b);
  tag_no_case-done = matching-done to_lower;
  tag_no_case-error = matching-error to_lower;
  take_till1-done = λ f x c xs rest v h.
      ap nonempty
        (span-done (λ b. not (f b)) c (x ∷ xs) rest (All-not f (x ∷ xs) v) (ground arith));
  take_while1-done = λ f x c xs rest v h. ap nonempty (span-done f c (x ∷ xs) rest v h);
  take_while1-error = λ f c rest h. ground arith;
  u64-done = λ x c xs rest v h small.
      ap (λ r. number (nonempty r)) (span-done is_digit c (x ∷ xs) rest v h) ∙ ground arith;
  take-done = λ xs rest.
      ground (arith, length-append xs rest, take-length_append xs rest, drop-length_append xs rest);
  alt-nil = λ i. refl;
  alt-cons = λ p ps i. refl;
  opt_lem = λ p i. refl;
  terminated_lem = λ p q i. refl;
  map_res_lem = λ p f i. refl;
}

abbrev is_blank : ℕ → Bool
is_blank b = (b == 32) || (b == 9)

abbrev message : ServerOperation
message = ServerOperation.msg (codes "a.b") 12 (some (codes "c")) (codes "hi")

decode-server_wire_example :
    decode parsers is_letter is_blank (server_wire message ++ codes "PI")
    ≡ ok (message, length (server_wire message))
decode-server_wire_example =
    decode-server_wire parsers is_letter is_blank (λ b. refl) (λ b. refl) message (codes "PI")
      (ground arith)

decode-hmsg_test : decode parsers is_letter is_blank (codes "HMSG a 1 0 0") ≡ err invalid_protocol
decode-hmsg_test = decode-hmsg parsers is_letter is_blank (codes " a 1 0 0")

abbrev append_to : Bytes → Bytes → Result Bytes ℕ
append_to bytes w = ok (w ++ bytes)

encode-client_wire_example :
    (w' : Bytes) × (encode Bytes ℕ append_to decimal (ClientOperation.unsub 3 (some 40)) (codes "x")
      ≡ returns (ok w'))
    × (w' ≡ codes "x" ++ client_wire (ClientOperation.unsub 3 (some 40)))
encode-client_wire_example =
    encode-client_wire Bytes ℕ append_to decimal (λ w. w) (λ bytes w. (w ++ bytes, refl, refl))
      (λ n. refl) (ClientOperation.unsub 3 (some 40)) (codes "x") tt
