-- ===== src/Nats/Wire.antt =====
-- The wire format of the client protocol of NATS, as the documentation of the operations of
-- src/ecosystem/nats/proto.rs describes it. That of CONNECT has no newline in the description.
use uringy.Common.{
  join, ℕ, ◌+◌, ◌^◌, ◌<◌, ◌≡◌, Bool, true, false, Option, none, some, List, [], ◌∷◌, All, ◌==◌, leb,
  ◌&&◌, ◌||◌, length,
}
use uringy.Common.Text.{codes}
use uringy.Common.Decimal.{decimal, from_utf8}
use uringy.Nats.Proto.{Bytes, ClientOperation, ServerOperation}

abbrev pub space : Bytes
space = b' ' ∷ []

abbrev pub newline : Bytes
newline = 13 ∷ 10 ∷ []

-- `[word]`, with the space that ends it
abbrev pub optional : Option Bytes → List Bytes → List Bytes
optional none ps = ps
optional (some b) ps = b ∷ space ∷ ps

-- `[number]`, with the space in front of it
abbrev pub limit : Option ℕ → List Bytes → List Bytes
limit none ps = ps
limit (some n) ps = space ∷ decimal n ∷ ps

abbrev pub client_parts : ClientOperation → List Bytes
client_parts (ClientOperation.connect json) = codes "CONNECT" ∷ space ∷ json ∷ newline ∷ []
client_parts (ClientOperation.publish subject reply_to payload) =
    codes "PUB"
    ∷ space
    ∷ subject
    ∷ space
    ∷ optional reply_to (decimal (length payload) ∷ newline ∷ payload ∷ newline ∷ [])
client_parts (ClientOperation.hpub subject reply_to headers payload) =
    codes "HPUB"
    ∷ space
    ∷ subject
    ∷ space
    ∷ optional reply_to (
        decimal (length headers)
        ∷ space
        ∷ decimal (length headers + length payload)
        ∷ newline
        ∷ headers
        ∷ payload
        ∷ newline
        ∷ [])
client_parts (ClientOperation.sub subject queue_group sid) =
    codes "SUB" ∷ space ∷ subject ∷ space ∷ optional queue_group (decimal sid ∷ newline ∷ [])
client_parts (ClientOperation.unsub sid max_messages) =
    codes "UNSUB" ∷ space ∷ decimal sid ∷ limit max_messages (newline ∷ [])
client_parts ClientOperation.ping = codes "PING" ∷ newline ∷ []
client_parts ClientOperation.pong = codes "PONG" ∷ newline ∷ []

abbrev pub server_parts : ServerOperation → List Bytes
server_parts (ServerOperation.info json) = codes "INFO" ∷ space ∷ json ∷ newline ∷ []
server_parts (ServerOperation.msg subject sid reply_to payload) =
    codes "MSG"
    ∷ space
    ∷ subject
    ∷ space
    ∷ decimal sid
    ∷ space
    ∷ optional reply_to (decimal (length payload) ∷ newline ∷ payload ∷ newline ∷ [])
server_parts (ServerOperation.hmsg subject sid reply_to headers payload) =
    codes "HMSG"
    ∷ space
    ∷ subject
    ∷ space
    ∷ decimal sid
    ∷ space
    ∷ optional reply_to (
        decimal (length headers)
        ∷ space
        ∷ decimal (length headers + length payload)
        ∷ newline
        ∷ headers
        ∷ payload
        ∷ newline
        ∷ [])
server_parts ServerOperation.ok_reply = codes "+OK" ∷ newline ∷ []
server_parts (ServerOperation.err_reply message) = codes "-ERR" ∷ space ∷ message ∷ newline ∷ []
server_parts ServerOperation.ping = codes "PING" ∷ newline ∷ []
server_parts ServerOperation.pong = codes "PONG" ∷ newline ∷ []

abbrev pub client_wire : ClientOperation → Bytes
client_wire operation = join (client_parts operation) []

abbrev pub server_wire : ServerOperation → Bytes
server_wire operation = join (server_parts operation) []

-- Letters and the punctuation of subjects.
abbrev pub is_letter : ℕ → Bool
is_letter b = (leb b'A' b && leb b b'Z') || (leb b'a' b && leb b b'z')

abbrev pub is_subject_byte : ℕ → Bool
is_subject_byte b = is_letter b || b == b'.' || b == b'*' || b == b'>'

abbrev pub IsSubject : Bytes → Type 0
IsSubject [] = ⊥
IsSubject (x ∷ xs) = All (λ b. is_subject_byte b ≡ true) (x ∷ xs)

abbrev pub IsReply : Option Bytes → Type 0
IsReply none = Unit {0}
IsReply (some subject) = IsSubject subject

-- A text that is not empty and stays on its line.
abbrev pub IsLine : Bytes → Type 0
IsLine [] = ⊥
IsLine (x ∷ xs) = All (λ b. (b == 13) ≡ false) (x ∷ xs) × (from_utf8 (x ∷ xs) ≡ some (x ∷ xs))

-- A text that does not start with white space.
abbrev pub IsTrimmed : Bytes → Type 0
IsTrimmed [] = Unit {0}
IsTrimmed (x ∷ xs) = ((x == 32) ≡ false) × ((x == 9) ≡ false)

-- The operations that `decode` reads: the texts are lines, subjects have letters, dots and wildcards
-- only, and the numbers fit 64 bits.
abbrev pub IsPlain : ServerOperation → Type 0
IsPlain (ServerOperation.info json) = IsLine json × IsTrimmed json
IsPlain (ServerOperation.msg subject sid reply_to payload) =
    IsSubject subject × (sid < 2 ^ 64) × IsReply reply_to × (length payload < 2 ^ 64)
IsPlain (ServerOperation.hmsg subject sid reply_to headers payload) = ⊥
IsPlain ServerOperation.ok_reply = Unit {0}
IsPlain (ServerOperation.err_reply message) = IsLine message
IsPlain ServerOperation.ping = Unit {0}
IsPlain ServerOperation.pong = Unit {0}
