-- ===== src/Nats/Proto.antt =====
-- src/ecosystem/nats/proto.rs: encoding the client's operations and decoding the server's. A text is
-- the list of its bytes.
use uringy.Common.{
  ℕ, ◌-◌, Bool, ◌||◌, Option, none, some, List, [], ◌∷◌, Panics, returns, panics, Result, ok, err,
  ◌==◌, length,
}
use uringy.Common.Text.{codes}
use uringy.Common.Decimal.{decimal, from_utf8}
use uringy.Nats.Nom.{Nom, IResult, done, incomplete, error, failure, Parser}

abbrev pub Bytes : Type 0
Bytes = List ℕ

pub data ClientOperation : Type 0 where
  connect : (json : Bytes) → ClientOperation
  publish : (subject : Bytes) (reply_to : Option Bytes) (payload : Bytes) → ClientOperation
  hpub : (subject : Bytes) (reply_to : Option Bytes) (headers payload : Bytes) → ClientOperation
  sub : (subject : Bytes) (queue_group : Option Bytes) (sid : ℕ) → ClientOperation
  unsub : (sid : ℕ) (max_messages : Option ℕ) → ClientOperation
  ping pong : ClientOperation

pub data ServerOperation : Type 0 where
  info : (json : Bytes) → ServerOperation
  msg : (subject : Bytes) (sid : ℕ) (reply_to : Option Bytes) (payload : Bytes) → ServerOperation
  hmsg :
      (subject : Bytes) (sid : ℕ) (reply_to : Option Bytes) (headers payload : Bytes)
      → ServerOperation
  ok_reply : ServerOperation
  err_reply : (message : Bytes) → ServerOperation
  ping pong : ServerOperation

pub data NatsProtoError : Type 0 where
  buffer_too_small invalid_protocol : NatsProtoError

-- A writer with `write_all`, and `itoa::Buffer::format`, which another crate provides.
module _ (W E : Type 0) (write_all : Bytes → W → Result W E) (format : ℕ → Bytes) where
  -- A panic, or an `io::Result` with the writer.
  abbrev pub Writing : Type 0
  Writing = Panics (Result W E)

  -- `write_all(..)?` and what follows
  abbrev pub put : Bytes → (W → Writing) → W → Writing
  put bytes next w = elim (write_all bytes w) [ ok w' ↦ next w' | err e ↦ returns (err e) ]

  abbrev pub put_optional : Option Bytes → (W → Writing) → W → Writing
  put_optional none next w = next w
  put_optional (some bytes) next w = put bytes (put (codes " ") next) w

  abbrev pub put_limit : Option ℕ → (W → Writing) → W → Writing
  put_limit none next w = next w
  put_limit (some n) next w = put (codes " ") (put (format n) next) w

  abbrev pub crlf : Bytes
  crlf = 13 ∷ 10 ∷ []

  -- The last `write_all` of `encode`.
  abbrev pub put_end : W → Writing
  put_end w = put crlf (λ w'. returns (ok w')) w

  -- `ClientOperation::encode`
  unfoldable pub encode : ClientOperation → W → Writing
  encode (ClientOperation.connect json) w = put (codes "CONNECT ") (put json put_end) w
  encode (ClientOperation.publish subject reply_to payload) w =
      put (codes "PUB ")
        (put subject (
          put (codes " ") (
            put_optional reply_to
              (put (format (length payload)) (put crlf (put payload put_end))))))
        w
  encode (ClientOperation.hpub subject reply_to headers payload) w = panics
  encode (ClientOperation.sub subject queue_group sid) w =
      put (codes "SUB ")
        (put subject (put (codes " ") (put_optional queue_group (put (format sid) put_end)))) w
  encode (ClientOperation.unsub sid max_messages) w =
      put (codes "UNSUB ") (put (decimal sid) (put_limit max_messages put_end)) w
  encode ClientOperation.ping w = put (codes "PING") put_end w
  encode ClientOperation.pong w = put (codes "PONG") put_end w

-- `nom::character::is_alphabetic` and `is_space` are tests of bytes of the other crate's.
module _ (N : Nom) (is_alphabetic is_space : ℕ → Bool) where
  open N use {tag, tag_no_case, take_till1, take_while1, u64, take, alt, opt, terminated, map_res}

  -- `let (buffer, a) = p(buffer)?;`
  infixl 5 ◌>>=◌
  abbrev ◌>>=◌ : {A B : Type 0} → IResult A → (List ℕ × A → IResult B) → IResult B
  done rest a >>= f = f (rest, a)
  incomplete >>= f = incomplete
  error >>= f = error
  failure >>= f = failure

  abbrev pub is_subject : ℕ → Bool
  is_subject b = is_alphabetic b || b == b'.' || b == b'*' || b == b'>'

  unfoldable pub parse_newline : Parser (Unit {0})
  parse_newline buffer = do (buffer, _) ← tag (13 ∷ 10 ∷ []) buffer; done buffer tt

  unfoldable pub parse_whitespace : Parser (Unit {0})
  parse_whitespace buffer = do (buffer, _) ← take_while1 is_space buffer; done buffer tt

  unfoldable pub parse_subject : Parser Bytes
  parse_subject buffer = map_res (take_while1 is_subject) from_utf8 buffer

  unfoldable pub parse_payload : Parser Bytes
  unfolding parse_newline
  parse_payload buffer = do
    (buffer, payload_size) ← u64 buffer
    (buffer, _) ← parse_newline buffer
    take payload_size buffer

  unfoldable pub parse_info : Parser ServerOperation
  parse_info buffer = do
    (buffer, _) ← tag_no_case (codes "INFO") buffer
    (buffer, _) ← parse_whitespace buffer
    (buffer, json) ← map_res (take_till1 (λ b. b == 13)) from_utf8 buffer
    done buffer (ServerOperation.info json)

  unfoldable pub parse_msg : Parser ServerOperation
  parse_msg buffer = do
    (buffer, _) ← tag_no_case (codes "MSG") buffer
    (buffer, _) ← parse_whitespace buffer
    (buffer, subject) ← parse_subject buffer
    (buffer, _) ← parse_whitespace buffer
    (buffer, sid) ← u64 buffer
    (buffer, _) ← parse_whitespace buffer
    (buffer, reply_to) ← opt (terminated parse_subject parse_whitespace) buffer
    (buffer, payload) ← parse_payload buffer
    done buffer (ServerOperation.msg subject sid reply_to payload)

  unfoldable pub parse_ok : Parser ServerOperation
  parse_ok buffer = do
    (buffer, _) ← tag_no_case (codes "+OK") buffer
    done buffer ServerOperation.ok_reply

  unfoldable pub parse_err : Parser ServerOperation
  parse_err buffer = do
    (buffer, _) ← tag_no_case (codes "-ERR ") buffer
    (buffer, message) ← map_res (take_till1 (λ b. b == 13)) from_utf8 buffer
    done buffer (ServerOperation.err_reply message)

  unfoldable pub parse_ping : Parser ServerOperation
  parse_ping buffer = do
    (buffer, _) ← tag_no_case (codes "PING") buffer
    done buffer ServerOperation.ping

  unfoldable pub parse_pong : Parser ServerOperation
  parse_pong buffer = do
    (buffer, _) ← tag_no_case (codes "PONG") buffer
    done buffer ServerOperation.pong

  unfoldable pub parse_server_operation : Parser ServerOperation
  parse_server_operation buffer = do
    (buffer, operation) ←
        alt (parse_info ∷ parse_msg ∷ parse_ok ∷ parse_err ∷ parse_ping ∷ parse_pong ∷ []) buffer
    (buffer, _) ← parse_newline buffer
    done buffer operation

  -- `ServerOperation::decode`: the operation, and how many bytes of the buffer it took
  unfoldable pub decode : Bytes → Result (ServerOperation × ℕ) NatsProtoError
  unfolding parse_server_operation
  decode buffer = elim (parse_server_operation buffer) [
    | done remaining operation ↦ ok (operation, length buffer - length remaining)
    | incomplete ↦ err buffer_too_small
    | error ↦ err invalid_protocol
    | failure ↦ err invalid_protocol
  ]
