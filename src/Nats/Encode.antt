-- ===== src/Nats/Encode.antt =====
-- Encoding the client's operations in src/ecosystem/nats/proto.rs against the documented wire format.
use uringy.Common.{
  join, ℕ, ◌≡◌, sym, ap, ◌∙◌, Option, none, some, List, [], ◌∷◌, ◌++◌, append-nil, append_assoc,
  Panics, returns, Result, ok, length, arith,
}
use uringy.Common.Text.{codes}
use uringy.Common.Decimal.{decimal}
use uringy.Nats.Proto.{Bytes, ClientOperation, encode, put, put_end, put_optional, put_limit}
use uringy.Nats.Wire.{optional, limit, newline, client_wire}

-- The operations that `encode` does not leave to do.
abbrev pub IsDone : ClientOperation → Type 0
IsDone (ClientOperation.hpub subject reply_to headers payload) = ⊥
IsDone _ = Unit {0}

module _ (W E : Type 0) (write_all : Bytes → W → Result W E) (format : ℕ → Bytes)
    (written : W → Bytes)
    (accepts : (bytes : Bytes) (w : W)
      → (w' : W) × (write_all bytes w ≡ ok w') × (written w' ≡ written w ++ bytes))
    (formats : (n : ℕ) → format n ≡ decimal n) where
  -- What follows writes these parts.
  record Writes (next : W → Panics (Result W E)) (ps : List Bytes) : Type 0 where
    writes :
        (w : W) → (w' : W) × (next w ≡ returns (ok w')) × (written w' ≡ written w ++ join ps [])

  put-Writes :
      (bytes : Bytes) (ps : List Bytes) (next : W → Panics (Result W E))
      → Writes next ps
      → Writes (put W E write_all format bytes next) (bytes ∷ ps)
  put-Writes bytes ps next h = record {
    writes = λ w.
        let (w1, accepted, grown) = accepts bytes w in
        let (w2, e, grown') = h.writes w1 in
        (
          w2,
          ground (arith, accepted, e),
          grown' ∙ ap (λ b. b ++ join ps []) grown ∙ append_assoc (written w) bytes (join ps []),
        );
  }

  number-Writes :
      (n : ℕ) (ps : List Bytes) (next : W → Panics (Result W E))
      → Writes next ps
      → Writes (put W E write_all format (format n) next) (decimal n ∷ ps)
  number-Writes n ps next h = rw (formats n) (put-Writes (decimal n) ps next h)

  end-Writes : Writes (put_end W E write_all format) (newline ∷ [])
  end-Writes = record {
    writes = λ w.
        let (w1, accepted, grown) = accepts newline w in
        (w1, ground (arith, accepted), grown ∙ ap (λ b. written w ++ b) (sym (append-nil newline)));
  }

  optional-Writes :
      (o : Option Bytes) (ps : List Bytes) (next : W → Panics (Result W E))
      → Writes next ps
      → Writes (put_optional W E write_all format o next) (optional o ps)
  optional-Writes none ps next h = h
  optional-Writes (some b) ps next h = put-Writes b _ _ (put-Writes (codes " ") ps next h)

  limit-Writes :
      (o : Option ℕ) (ps : List Bytes) (next : W → Panics (Result W E))
      → Writes next ps
      → Writes (put_limit W E write_all format o next) (limit o ps)
  limit-Writes none ps next h = h
  limit-Writes (some n) ps next h =
      put-Writes (codes " ") (decimal n ∷ ps) _ (number-Writes n ps next h)

  -- Encoding an operation other than HPUB, which panics, into a writer that takes everything
  -- returns, and appends exactly the documented wire format of the operation. CONNECT gets a newline at
  -- its end as well, which its documentation leaves out.
  pub encode-client_wire :
      (operation : ClientOperation) (w : W)
      → IsDone operation
      → (w' : W) × (encode W E write_all format operation w ≡ returns (ok w'))
        × (written w' ≡ written w ++ client_wire operation)
  unfolding encode
  encode-client_wire (ClientOperation.connect json) w d =
      (put-Writes (codes "CONNECT ") _ _ (put-Writes json _ _ end-Writes)).writes w
  encode-client_wire (ClientOperation.publish subject reply_to payload) w d =
      ((put-Writes (codes "PUB ") _ _ (
          put-Writes subject _ _ (
            put-Writes (codes " ") _ _ (
              optional-Writes reply_to _ _ (
                number-Writes (length payload) _ _
                  (put-Writes newline _ _ (put-Writes payload _ _ end-Writes))))))).writes
        w)
  encode-client_wire (ClientOperation.hpub subject reply_to headers payload) w d = absurd d
  encode-client_wire (ClientOperation.sub subject queue_group sid) w d =
      ((put-Writes (codes "SUB ") _ _ (
          put-Writes subject _ _ (
            put-Writes (codes " ") _ _
              (optional-Writes queue_group _ _ (number-Writes sid _ _ end-Writes))))).writes
        w)
  encode-client_wire (ClientOperation.unsub sid max_messages) w d =
      (put-Writes (codes "UNSUB ") _ _
          (put-Writes (decimal sid) _ _ (limit-Writes max_messages _ _ end-Writes))).writes
        w
  encode-client_wire ClientOperation.ping w d = (put-Writes (codes "PING") _ _ end-Writes).writes w
  encode-client_wire ClientOperation.pong w d = (put-Writes (codes "PONG") _ _ end-Writes).writes w
