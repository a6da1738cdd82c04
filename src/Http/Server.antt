-- ===== src/Http/Server.antt =====
-- src/ecosystem/http/server/mod.rs: writing a response, and serving a connection. The writer is a
-- parameter with its `write_all`, and so are the date of now and the parser of requests, `httparse`.
pub mod Serving
pub mod Wire
use uringy.Common.{
  ℕ, zero, suc, ◌+◌, ◌-◌, ◌*◌, ◌%◌, ◌^◌, ◌≡◌, refl, Bool, true, false, not, ◌&&◌, Option, none,
  some, List, [], ◌∷◌, ◌++◌, Panics, returns, panics, ◌>>=◌, ◌>>◌, assert, Result, ok, err,
  if◌then◌else◌, ◌==◌, leb, ltb, length, take, drop,
}
use uringy.Common.Text.{codes, lowercase, same_text, same_letters}
use uringy.Common.Decimal.{decimal, is_digit, digits_value, from_utf8}
use uringy.Http.Payload.{
  Text, Method, method_from_str, status_number, Request, new_request, Response,
}
use uringy.Http.Uri.{parse_partial_uri}
use uringy.Http.Router.{new_responder, Matchit, Router, handle}

-- What the parser of requests comes to: a whole head with its size, its method, its path and its
-- headers, or not yet, or an error.
pub data Parsed : Type 0 where
  complete : (wire_size : ℕ) (method path : Option Text) (headers : List (Text × Text)) → Parsed
  partial_head parse_error : Parsed

abbrev all_digits : Text → Bool
all_digits [] = true
all_digits (c ∷ cs) = is_digit c && all_digits cs

abbrev pub digits_usize : Text → Option ℕ
digits_usize [] = none
digits_usize (c ∷ cs) =
    if all_digits (c ∷ cs) && ltb (digits_value 0 (c ∷ cs)) (2 ^ 64)
    then some (digits_value 0 (c ∷ cs))
    else none

-- `usize::from_str`, which takes a plus sign
unfoldable pub parse_usize : Text → Option ℕ
parse_usize [] = none
parse_usize (c ∷ cs) = if c == b'+' then digits_usize cs else digits_usize (c ∷ cs)

-- The first header with this name in lower case.
abbrev pub find_lowercase : Text → List (Text × Text) → Option Text
find_lowercase name [] = none
find_lowercase name ((k, v) ∷ headers) =
    let rest = find_lowercase name headers in if same_text (lowercase k) name then some v else rest

abbrev pub bind_option {ℓ κ} : {A : Type ℓ} {B : Type κ} → Option A → (A → Option B) → Option B
bind_option none f = none
bind_option (some a) f = f a

abbrev pub unwrap_or {ℓ} : {A : Type ℓ} → A → Option A → A
unwrap_or a none = a
unwrap_or a (some b) = b

abbrev pub unwrap {ℓ} : {A : Type ℓ} → Option A → Panics A
unwrap none = panics
unwrap (some a) = returns a

abbrev pub unwrap_result {ℓ κ} : {A : Type ℓ} {E : Type κ} → Result A E → Panics A
unwrap_result (ok a) = returns a
unwrap_result (err e) = panics

-- `body_size` in `handle_connection`
unfoldable pub body_size : List (Text × Text) → ℕ
unfolding parse_usize
body_size headers = unwrap_or 0 (
    bind_option (bind_option (find_lowercase (codes "content-length") headers) from_utf8)
      parse_usize)

-- `&data[from..to]`
abbrev pub slice : Text → ℕ → ℕ → Panics Text
slice data_ from to =
    if leb from to && leb to (length data_)
    then returns (take (to - from) (drop from data_))
    else panics

module _ (W E : Type 0) (write_all : Text → W → Result W E) (date : Text) where
  abbrev pub Writing : Type 0
  Writing = Panics (Result W E)

  -- `writer.write_all(..)?` and what follows
  abbrev pub write : Text → (W → Writing) → W → Writing
  write t next w = elim (write_all t w) [ ok w' ↦ next w' | err e ↦ returns (err e) ]

  abbrev pub crlf : Text
  crlf = 13 ∷ 10 ∷ []

  -- A header that `serialize` writes itself.
  abbrev pub is_reserved : Text → Bool
  is_reserved name =
      if same_letters name (codes "content-length")
      then true
      else if same_letters name (codes "content-type")
      then true
      else same_letters name (codes "date")

  abbrev pub write_headers : List (Text × Text) → (W → Writing) → W → Writing
  write_headers [] next w = next w
  write_headers ((name, value) ∷ headers) next w =
      if is_reserved name
      then panics
      else write name (write (codes ": ") (write value (write crlf (write_headers headers next)))) w

  abbrev pub write_content_type : Option Text → (W → Writing) → W → Writing
  write_content_type none next w = next w
  write_content_type (some t) next w =
      write (codes "content-type") (write (codes ": ") (write t (write crlf next))) w

  -- `serialize`
  unfoldable pub serialize : Response → W → Writing
  serialize response w =
      write (codes "HTTP/1.1 ")
        (write (decimal (status_number response.status)) (
          write (codes " ") (
            write (codes "OK") (
              write crlf (
                write (codes "content-length") (
                  write (codes ": ") (
                    write (decimal (length response.body)) (
                      write crlf (
                        write_content_type response.content_type (
                          write (codes "date") (
                            write (codes ": ") (
                              write date (
                                write crlf (
                                  write (codes "connection: close" ++ crlf) (
                                    write_headers response.headers (
                                      write crlf (
                                        write response.body (λ w'. returns (ok w')))))))))))))))))))
        w

  -- `write_all` is that of a `BufWriter`. Its drop flushes it, and ignores an error.
  module _ (flush_on_drop : W → W) (S : Type 0) (M : Matchit S) (parse : Text → Parsed) where
    -- What a round of the loop comes to: it waits for more data, or the loop is over, with the writer
    -- and the data that are left.
    pub data Round : Type 0 where
      waiting : Round
      answered : W → Text → Round
      stopped : Round

    -- `RealResponder::respond`, if the handler has responded
    unfoldable pub respond : Option Response → W → Panics W
    unfolding serialize
    respond none w = returns w
    respond (some response) w = do
      r ← serialize response w
      w' ← unwrap_result r
      returns (flush_on_drop w')

    -- A round of `handle_connection` on the data that has been read. The sum of the sizes wraps
    -- around, as in a release build.
    unfoldable pub serve_round : Router S M → W → Text → Panics Round
    unfolding body_size handle parse_partial_uri method_from_str respond
    serve_round router w data_ = elim (parse data_) [
      | partial_head ↦ returns waiting
      | parse_error ↦ returns stopped
      | complete wire_size method path headers ↦
          (let end : ℕ = (wire_size + body_size headers) % 2 ^ 64 in
            elim (ltb (length data_) end) [
              | true ↦ returns waiting
              | false ↦ (do
                uri ← unwrap path
                (p, query) ← parse_partial_uri uri
                name ← unwrap method
                m ← unwrap_result (method_from_str name)
                body ← slice data_ wire_size end
                sent ← handle S M new_responder (new_request m p query headers body) router
                w' ← respond sent w
                assert (leb wire_size (length data_))
                returns (answered w' (drop wire_size data_)))
            ])
    ]

    -- `handle_connection`: each round has the cancelled flag as the loop tests it, and the data as the
    -- fiber finds it when it is woken. `none` says that the fiber still waits after these rounds.
    unfoldable pub handle_connection : List (Bool × Text) → Router S M → W → Panics (Option Round)
    unfolding serve_round
    handle_connection [] router w = returns none
    handle_connection ((true, data_) ∷ rounds) router w = returns (some stopped)
    handle_connection ((false, data_) ∷ rounds) router w = do
      let rest = handle_connection rounds router w
      round ← serve_round router w data_
      elim round [
        | waiting ↦ rest
        | answered w' left ↦ returns (some (answered w' left))
        | stopped ↦ returns (some stopped)
      ]
