-- ===== src/Nats/Fields.antt =====
-- The parsers of single fields and operations in src/ecosystem/nats/proto.rs on the documented format.
use uringy.Common.{
  join, ℕ, ◌^◌, ◌<◌, ◌≡◌, refl, ap, ◌∙◌, Bool, true, false, ◌||◌, Option, none, some, List, [], ◌∷◌,
  ◌++◌, length, All, ◌==◌, arith,
}
use uringy.Common.Text.{codes}
use uringy.Common.Decimal.{
  decimal, decimal_lem, digits_value, is_digit, AreDigits, from_utf8, from_utf8-ascii,
}
use uringy.Nats.Nom.{Nom, done}
use uringy.Nats.Proto.{
  Bytes, ServerOperation, parse_newline, parse_whitespace, parse_subject, parse_payload, parse_info,
  parse_msg, parse_err, is_subject,
}
use uringy.Nats.Wire.{
  newline, optional, server_parts, is_letter, is_subject_byte, IsSubject, IsReply, IsLine,
  IsTrimmed, IsPlain,
}

module _ (N : Nom) (is_alphabetic is_space : ℕ → Bool)
    (letters : (b : ℕ) → is_alphabetic b ≡ is_letter b)
    (spaces : (b : ℕ) → is_space b ≡ ((b == 32) || (b == 9))) where
  space_lem :
      (c : ℕ) (rest : Bytes)
      → (c == 32) ≡ false
      → (c == 9) ≡ false
      → parse_whitespace N is_alphabetic is_space (32 ∷ c ∷ rest) ≡ done (c ∷ rest) tt
  unfolding parse_whitespace
  space_lem c rest h k =
      ground
        (arith, N.take_while1-done is_space 32 c [] rest (spaces 32, tt) (ground (arith, spaces c)))

  subjects : (b : ℕ) → is_subject N is_alphabetic is_space b ≡ is_subject_byte b
  subjects b = ground (arith, letters b)

  subject_ascii : (xs : Bytes) → All (λ b. is_subject_byte b ≡ true) xs → All (λ b. b < 0x80) xs
  subject_ascii [] h = tt
  subject_ascii (x ∷ xs) (p, h) = (ground arith, subject_ascii xs h)

  All-subject :
      (xs : Bytes)
      → All (λ b. is_subject_byte b ≡ true) xs
      → All (λ b. is_subject N is_alphabetic is_space b ≡ true) xs
  All-subject [] h = tt
  All-subject (x ∷ xs) (p, h) = (subjects x ∙ p, All-subject xs h)

  subject_lem :
      (x c : ℕ) (xs rest : Bytes)
      → IsSubject (x ∷ xs)
      → is_subject_byte c ≡ false
      → parse_subject N is_alphabetic is_space ((x ∷ xs) ++ (c ∷ rest)) ≡ done (c ∷ rest) (x ∷ xs)
  unfolding parse_subject
  subject_lem x c xs rest v h =
      let subject : ℕ → Bool = is_subject N is_alphabetic is_space in
      let run : N.take_while1 subject ((x ∷ xs) ++ (c ∷ rest)) ≡ done (c ∷ rest) (x ∷ xs) =
        N.take_while1-done subject x c xs rest (All-subject (x ∷ xs) v) (subjects c ∙ h) in
      ground (
        arith,
        N.map_res_lem (N.take_while1 subject) from_utf8 ((x ∷ xs) ++ (c ∷ rest)),
        run,
        from_utf8-ascii (x ∷ xs) (subject_ascii (x ∷ xs) v),
      )

  u64_lem :
      (n c : ℕ) (rest : Bytes)
      → n < 2 ^ 64
      → is_digit c ≡ false
      → N.u64 (decimal n ++ (c ∷ rest)) ≡ done (c ∷ rest) n
  u64_lem n c rest small h =
      let (value, digits, (d, ds, e)) = decimal_lem n in
      let run : N.u64 ((d ∷ ds) ++ (c ∷ rest)) ≡ done (c ∷ rest) (digits_value 0 (d ∷ ds)) =
        N.u64-done d c ds rest (rw e at digits) h (omega (arith, rw e at value)) in
      rw e (run ∙ ap (done (c ∷ rest)) (rw e at value))

  payload_lem :
      (payload rest : Bytes)
      → length payload < 2 ^ 64
      → parse_payload N is_alphabetic is_space
          (decimal (length payload) ++ (13 ∷ 10 ∷ (payload ++ rest)))
        ≡ done rest payload
  unfolding parse_payload parse_newline
  payload_lem payload rest small = ground (
    arith,
    u64_lem (length payload) 13 (10 ∷ (payload ++ rest)) small refl,
    N.tag-done newline (payload ++ rest),
    N.take-done payload rest,
  )

  decimal_cons : (n : ℕ) → (d : ℕ) × (ds : Bytes) × (decimal n ≡ d ∷ ds) × (is_digit d ≡ true)
  decimal_cons n =
      let (value, digits, (d, ds, e)) = decimal_lem n in
      let first : AreDigits (d ∷ ds) = rw e at digits in (d, ds, e, first.0)

  reply_lem :
      (reply_to : Option Bytes) (d : ℕ) (rest : Bytes)
      → IsReply reply_to
      → is_digit d ≡ true
      → N.opt
          (N.terminated
            (parse_subject N is_alphabetic is_space)
            (parse_whitespace N is_alphabetic is_space))
          (join (optional reply_to []) (d ∷ rest))
        ≡ done (d ∷ rest) reply_to
  unfolding parse_subject
  reply_lem none d rest v h =
      let subject : ℕ → Bool = is_subject N is_alphabetic is_space in
      ground (
        arith,
        N.opt_lem
            (N.terminated (parse_subject N is_alphabetic is_space)
              (parse_whitespace N is_alphabetic is_space))
            (d ∷ rest),
        N.terminated_lem (parse_subject N is_alphabetic is_space)
            (parse_whitespace N is_alphabetic is_space) (d ∷ rest),
        N.map_res_lem (N.take_while1 subject) from_utf8 (d ∷ rest),
        N.take_while1-error subject d rest (subjects d ∙ ground arith),
      )
  reply_lem (some []) d rest v h = absurd v
  reply_lem (some (x ∷ xs)) d rest v h =
      let i : Bytes = (x ∷ xs) ++ (32 ∷ d ∷ rest) in
      ground (
        arith,
        N.opt_lem
            (N.terminated (parse_subject N is_alphabetic is_space)
              (parse_whitespace N is_alphabetic is_space))
            i,
        N.terminated_lem (parse_subject N is_alphabetic is_space)
            (parse_whitespace N is_alphabetic is_space) i,
        subject_lem x 32 xs (d ∷ rest) v refl,
        space_lem d rest (ground arith) (ground arith),
      )

  line_lem :
      (text rest : Bytes)
      → IsLine text
      → N.map_res (N.take_till1 (λ b. b == 13)) from_utf8 (text ++ (13 ∷ rest))
        ≡ done (13 ∷ rest) text
  line_lem [] rest v = absurd v
  line_lem (x ∷ xs) rest (line, text) = ground (
    arith,
    N.map_res_lem (N.take_till1 (λ b. b == 13)) from_utf8 ((x ∷ xs) ++ (13 ∷ rest)),
    N.take_till1-done (λ b. b == 13) x 13 xs rest line refl,
    text,
  )

  pub info_lem :
      (json rest : Bytes)
      → IsLine json
      → IsTrimmed json
      → parse_info N is_alphabetic is_space (join (server_parts (ServerOperation.info json)) rest)
        ≡ done (13 ∷ 10 ∷ rest) (ServerOperation.info json)
  unfolding parse_info
  info_lem [] rest v w = absurd v
  info_lem (x ∷ xs) rest v w =
      let text : Bytes = (x ∷ xs) ++ (13 ∷ 10 ∷ rest) in
      ground (
        arith,
        N.tag_no_case-done (codes "INFO") (32 ∷ text),
        space_lem x (xs ++ (13 ∷ 10 ∷ rest)) w.0 w.1,
        line_lem (x ∷ xs) (10 ∷ rest) v,
      )

  join-optional :
      (o : Option Bytes) (ps : List Bytes) (rest : Bytes)
      → join (optional o ps) rest ≡ join (optional o []) (join ps rest)
  join-optional none ps rest = refl
  join-optional (some b) ps rest = refl

  head_lem :
      (reply_to : Option Bytes) (d : ℕ) (rest : Bytes)
      → IsReply reply_to
      → is_digit d ≡ true
      → (c : ℕ) × (cs : Bytes) × (join (optional reply_to []) (d ∷ rest) ≡ c ∷ cs)
        × (((c == 32) ≡ false) × ((c == 9) ≡ false))
  head_lem none d rest v h = (d, rest, refl, (ground arith, ground arith))
  head_lem (some []) d rest v h = absurd v
  head_lem (some (x ∷ xs)) d rest v h =
      (x, xs ++ (32 ∷ d ∷ rest), refl, (ground arith, ground arith))

  pub msg_lem :
      (subject : Bytes) (sid : ℕ) (reply_to : Option Bytes) (payload rest : Bytes)
      → IsPlain (ServerOperation.msg subject sid reply_to payload)
      → parse_msg N is_alphabetic is_space
          (join (server_parts (ServerOperation.msg subject sid reply_to payload)) rest)
        ≡ done (13 ∷ 10 ∷ rest) (ServerOperation.msg subject sid reply_to payload)
  unfolding parse_msg
  msg_lem [] sid reply_to payload rest v = absurd v.0
  msg_lem (x ∷ xs) sid reply_to payload rest (sub, small, reply, fits) =
      let (s, ss, e, s_digit) = decimal_cons sid in
      let (n, ns, e', n_digit) = decimal_cons (length payload) in
      let sized : Bytes = decimal (length payload) ++ (13 ∷ 10 ∷ (payload ++ (13 ∷ 10 ∷ rest))) in
      let replied : Bytes = join (optional reply_to []) sized in
      let numbered : Bytes = decimal sid ++ (32 ∷ replied) in
      let sized_n : sized ≡ n ∷ (ns ++ (13 ∷ 10 ∷ (payload ++ (13 ∷ 10 ∷ rest)))) = rw e' refl in
      let (c, cs, e'', solid) =
        head_lem reply_to n (ns ++ (13 ∷ 10 ∷ (payload ++ (13 ∷ 10 ∷ rest)))) reply n_digit in
      let replied_c : replied ≡ c ∷ cs = ap (join (optional reply_to [])) sized_n ∙ e'' in
      let skip1 : parse_whitespace N is_alphabetic is_space (32 ∷ numbered) ≡ done numbered tt =
        rw e (space_lem s (ss ++ (32 ∷ replied)) (ground arith) (ground arith)) in
      let skip2 : parse_whitespace N is_alphabetic is_space (32 ∷ replied) ≡ done replied tt =
        rw replied_c (space_lem c cs solid.0 solid.1) in
      let optional_reply : N.opt
            (N.terminated (parse_subject N is_alphabetic is_space)
              (parse_whitespace N is_alphabetic is_space))
            replied
          ≡ done sized reply_to =
        rw sized_n
          (reply_lem reply_to n (ns ++ (13 ∷ 10 ∷ (payload ++ (13 ∷ 10 ∷ rest)))) reply n_digit) in
      ground (
        arith,
        N.tag_no_case-done (codes "MSG") (32 ∷ ((x ∷ xs) ++ (32 ∷ numbered))),
        space_lem x (xs ++ (32 ∷ numbered)) (ground arith) (ground arith),
        subject_lem x 32 xs numbered sub refl,
        skip1,
        u64_lem sid 32 replied small refl,
        skip2,
        optional_reply,
        payload_lem payload (13 ∷ 10 ∷ rest) fits,
        join-optional reply_to (decimal (length payload) ∷ newline ∷ payload ∷ newline ∷ []) rest,
      )

  pub err_lem :
      (message rest : Bytes)
      → IsLine message
      → parse_err N is_alphabetic is_space
          (join (server_parts (ServerOperation.err_reply message)) rest)
        ≡ done (13 ∷ 10 ∷ rest) (ServerOperation.err_reply message)
  unfolding parse_err
  err_lem message rest v = ground (
    arith,
    N.tag_no_case-done (codes "-ERR ") (message ++ (13 ∷ 10 ∷ rest)),
    line_lem message (10 ∷ rest) v,
  )
