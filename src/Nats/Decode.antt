-- ===== src/Nats/Decode.antt =====
-- Decoding the server's operations in src/ecosystem/nats/proto.rs against the documented wire format.
use uringy.Common.{
  join, join-append, ℕ, ◌-◌, ◌≡◌, refl, ap, ◌∙◌, ◌≢◌, Bool, ◌||◌, List, [], ◌∷◌, ◌++◌, length, ok,
  err, ◌==◌, arith, length-append,
}
use uringy.Common.Text.{codes, to_lower}
use uringy.Nats.Nom.{Nom, done, error, Parser}
use uringy.Nats.Proto.{
  Bytes, ServerOperation, invalid_protocol, parse_newline, parse_info, parse_msg, parse_ok,
  parse_err, parse_ping, parse_pong, parse_server_operation, decode,
}
use uringy.Nats.Wire.{newline, server_parts, server_wire, is_letter, IsPlain}
use uringy.Nats.Fields.{info_lem, msg_lem, err_lem}

module _ (N : Nom) (is_alphabetic is_space : ℕ → Bool) where
  -- The parsers that do not read an operation fail on its first letters.
  no_info :
      (b : ℕ) (rest : Bytes)
      → to_lower b'I' ≢ to_lower b
      → parse_info N is_alphabetic is_space (b ∷ rest) ≡ error
  unfolding parse_info
  no_info b rest h = ground (arith, N.tag_no_case-error [] [] (codes "NFO") rest b'I' b refl h)

  no_msg :
      (b : ℕ) (rest : Bytes)
      → to_lower b'M' ≢ to_lower b
      → parse_msg N is_alphabetic is_space (b ∷ rest) ≡ error
  unfolding parse_msg
  no_msg b rest h = ground (arith, N.tag_no_case-error [] [] (codes "SG") rest b'M' b refl h)

  no_ok :
      (b : ℕ) (rest : Bytes)
      → to_lower b'+' ≢ to_lower b
      → parse_ok N is_alphabetic is_space (b ∷ rest) ≡ error
  unfolding parse_ok
  no_ok b rest h = ground (arith, N.tag_no_case-error [] [] (codes "OK") rest b'+' b refl h)

  no_err :
      (b : ℕ) (rest : Bytes)
      → to_lower b'-' ≢ to_lower b
      → parse_err N is_alphabetic is_space (b ∷ rest) ≡ error
  unfolding parse_err
  no_err b rest h = ground (arith, N.tag_no_case-error [] [] (codes "ERR ") rest b'-' b refl h)

  no_ping :
      (b : ℕ) (rest : Bytes)
      → to_lower b'P' ≢ to_lower b
      → parse_ping N is_alphabetic is_space (b ∷ rest) ≡ error
  unfolding parse_ping
  no_ping b rest h = ground (arith, N.tag_no_case-error [] [] (codes "ING") rest b'P' b refl h)

  no_pong :
      (b : ℕ) (rest : Bytes)
      → to_lower b'P' ≢ to_lower b
      → parse_pong N is_alphabetic is_space (b ∷ rest) ≡ error
  unfolding parse_pong
  no_pong b rest h = ground (arith, N.tag_no_case-error [] [] (codes "ONG") rest b'P' b refl h)

  alt_skip :
      {A : Type 0} (p : Parser A) (ps : List (Parser A)) (i : Bytes)
      → p i ≡ error
      → N.alt (p ∷ ps) i ≡ N.alt ps i
  alt_skip p ps i h = ground (arith, N.alt-cons p ps i)

  alt_hit :
      {A : Type 0} (p : Parser A) (ps : List (Parser A)) (i rest : Bytes) (a : A)
      → p i ≡ done rest a
      → N.alt (p ∷ ps) i ≡ done rest a
  alt_hit p ps i rest a h = ground (arith, N.alt-cons p ps i)

  abbrev from_ping : List (Parser ServerOperation)
  from_ping = parse_ping N is_alphabetic is_space ∷ parse_pong N is_alphabetic is_space ∷ []

  abbrev from_err : List (Parser ServerOperation)
  from_err = parse_err N is_alphabetic is_space ∷ from_ping

  abbrev from_ok : List (Parser ServerOperation)
  from_ok = parse_ok N is_alphabetic is_space ∷ from_err

  abbrev from_msg : List (Parser ServerOperation)
  from_msg = parse_msg N is_alphabetic is_space ∷ from_ok

  abbrev operations : List (Parser ServerOperation)
  operations = parse_info N is_alphabetic is_space ∷ from_msg

  -- An operation that one of the parsers reads up to its newline is decoded.
  decoded :
      (i rest : Bytes) (operation : ServerOperation)
      → N.alt operations i ≡ done (13 ∷ 10 ∷ rest) operation
      → decode N is_alphabetic is_space i ≡ ok (operation, length i - length rest)
  unfolding decode parse_server_operation parse_newline
  decoded i rest operation h = ground (arith, N.tag-done newline rest)

  skip_to_ok :
      (b : ℕ) (rest : Bytes)
      → to_lower b'I' ≢ to_lower b
      → to_lower b'M' ≢ to_lower b
      → N.alt operations (b ∷ rest) ≡ N.alt from_ok (b ∷ rest)
  skip_to_ok b rest i m =
      alt_skip (parse_info N is_alphabetic is_space) from_msg (b ∷ rest) (no_info b rest i)
      ∙ alt_skip (parse_msg N is_alphabetic is_space) from_ok (b ∷ rest) (no_msg b rest m)

  skip_to_ping :
      (b : ℕ) (rest : Bytes)
      → to_lower b'I' ≢ to_lower b
      → to_lower b'M' ≢ to_lower b
      → to_lower b'+' ≢ to_lower b
      → to_lower b'-' ≢ to_lower b
      → N.alt operations (b ∷ rest) ≡ N.alt from_ping (b ∷ rest)
  skip_to_ping b rest i m p e =
      skip_to_ok b rest i m
      ∙ alt_skip (parse_ok N is_alphabetic is_space) from_err (b ∷ rest) (no_ok b rest p)
      ∙ alt_skip (parse_err N is_alphabetic is_space) from_ping (b ∷ rest) (no_err b rest e)

  -- HMSG, which the documentation has, is not decoded: whatever follows these four letters, the
  -- result is an error of the protocol, and not that more bytes are needed.
  pub decode-hmsg :
      (rest : Bytes) → decode N is_alphabetic is_space (codes "HMSG" ++ rest) ≡ err invalid_protocol
  unfolding decode parse_server_operation
  decode-hmsg rest =
      let i : Bytes = codes "HMSG" ++ rest in
      let tail_ : Bytes = codes "MSG" ++ rest in
      let none_reads : N.alt operations i ≡ error =
        skip_to_ping b'H' tail_ (ground arith) (ground arith) (ground arith) (ground arith)
        ∙ alt_skip (parse_ping N is_alphabetic is_space) (parse_pong N is_alphabetic is_space ∷ [])
            i (no_ping b'H' tail_ (ground arith))
        ∙ alt_skip (parse_pong N is_alphabetic is_space) [] i (no_pong b'H' tail_ (ground arith))
        ∙ N.alt-nil i in
      ground (arith, none_reads)

  module _ (letters : (b : ℕ) → is_alphabetic b ≡ is_letter b)
      (spaces : (b : ℕ) → is_space b ≡ ((b == 32) || (b == 9))) where
    alt_lem :
        (operation : ServerOperation) (rest : Bytes)
        → IsPlain operation
        → N.alt operations (join (server_parts operation) rest) ≡ done (13 ∷ 10 ∷ rest) operation
    unfolding parse_ok parse_ping parse_pong
    alt_lem (ServerOperation.info json) rest (line, trimmed) =
        alt_hit (parse_info N is_alphabetic is_space) from_msg
          (join (server_parts (ServerOperation.info json)) rest) (13 ∷ 10 ∷ rest)
          (ServerOperation.info json)
          (info_lem N is_alphabetic is_space letters spaces json rest line trimmed)
    alt_lem (ServerOperation.msg subject sid reply_to payload) rest v =
        let i : Bytes =
          join (server_parts (ServerOperation.msg subject sid reply_to payload)) rest in
        alt_skip (parse_info N is_alphabetic is_space) from_msg i (no_info b'M' _ (ground arith))
        ∙ alt_hit (parse_msg N is_alphabetic is_space) from_ok i (13 ∷ 10 ∷ rest)
            (ServerOperation.msg subject sid reply_to payload)
            (msg_lem N is_alphabetic is_space letters spaces subject sid reply_to payload rest v)
    alt_lem (ServerOperation.hmsg subject sid reply_to headers payload) rest v = absurd v
    alt_lem ServerOperation.ok_reply rest v =
        let i : Bytes = codes "+OK" ++ (13 ∷ 10 ∷ rest) in
        skip_to_ok b'+' (codes "OK" ++ (13 ∷ 10 ∷ rest)) (ground arith) (ground arith)
        ∙ alt_hit (parse_ok N is_alphabetic is_space) from_err i (13 ∷ 10 ∷ rest)
            ServerOperation.ok_reply
            (ground (arith, N.tag_no_case-done (codes "+OK") (13 ∷ 10 ∷ rest)))
    alt_lem (ServerOperation.err_reply message) rest v =
        let i : Bytes = join (server_parts (ServerOperation.err_reply message)) rest in
        let tail_ : Bytes = codes "ERR " ++ (message ++ (13 ∷ 10 ∷ rest)) in
        skip_to_ok b'-' tail_ (ground arith) (ground arith)
        ∙ alt_skip (parse_ok N is_alphabetic is_space) from_err i (no_ok b'-' tail_ (ground arith))
        ∙ alt_hit (parse_err N is_alphabetic is_space) from_ping i (13 ∷ 10 ∷ rest)
            (ServerOperation.err_reply message)
            (err_lem N is_alphabetic is_space letters spaces message rest v)
    alt_lem ServerOperation.ping rest v =
        let i : Bytes = codes "PING" ++ (13 ∷ 10 ∷ rest) in
        skip_to_ping b'P' (codes "ING" ++ (13 ∷ 10 ∷ rest)) (ground arith) (ground arith)
          (ground arith) (ground arith)
        ∙ alt_hit (parse_ping N is_alphabetic is_space) (parse_pong N is_alphabetic is_space ∷ []) i
            (13 ∷ 10 ∷ rest) ServerOperation.ping
            (ground (arith, N.tag_no_case-done (codes "PING") (13 ∷ 10 ∷ rest)))
    alt_lem ServerOperation.pong rest v =
        let i : Bytes = codes "PONG" ++ (13 ∷ 10 ∷ rest) in
        let other : N.tag_no_case (codes "PING") i ≡ error =
          N.tag_no_case-error (codes "P") (codes "P") (codes "NG") (codes "NG" ++ (13 ∷ 10 ∷ rest))
            b'I' b'O' refl (ground arith) in
        skip_to_ping b'P' (codes "ONG" ++ (13 ∷ 10 ∷ rest)) (ground arith) (ground arith)
          (ground arith) (ground arith)
        ∙ alt_skip (parse_ping N is_alphabetic is_space) (parse_pong N is_alphabetic is_space ∷ [])
            i (ground (arith, other))
        ∙ alt_hit (parse_pong N is_alphabetic is_space) [] i (13 ∷ 10 ∷ rest) ServerOperation.pong
            (ground (arith, N.tag_no_case-done (codes "PONG") (13 ∷ 10 ∷ rest)))

    -- Decoding the documented wire format of an operation other than HMSG, which the decoder does not
    -- know, with anything behind it, gives the operation and exactly the length of its format. The texts
    -- of the operation are lines, the JSON of INFO starts with no space or tab, subjects have letters,
    -- dots and wildcards only, and the numbers are below 2^64.
    pub decode-server_wire :
        (operation : ServerOperation) (rest : Bytes)
        → IsPlain operation
        → decode N is_alphabetic is_space (server_wire operation ++ rest)
          ≡ ok (operation, length (server_wire operation))
    decode-server_wire operation rest v =
        let wire : Bytes = server_wire operation in
        let same : wire ++ rest ≡ join (server_parts operation) rest =
          join-append (server_parts operation) rest in
        decoded (wire ++ rest) rest operation
          (ap (N.alt operations) same ∙ alt_lem operation rest v)
        ∙ ap (λ n. ok (operation, n)) (omega (arith, length-append wire rest))
