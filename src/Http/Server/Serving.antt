-- ===== src/Http/Server/Serving.antt =====
-- What serving a connection in src/ecosystem/http/server/mod.rs answers.
mod Sizes
use uringy.Common.{
  ℕ, zero, suc, ◌+◌, ◌-◌, ◌*◌, ◌%◌, ◌^◌, ◌≤◌, ◌<◌, ◌≡◌, refl, sym, ap, ◌∙◌, Bool, true, false, not,
  ◌&&◌, Option, none, some, List, [], ◌∷◌, ◌++◌, Panics, returns, panics, ◌>>=◌, ◌>>◌, assert,
  Result, ok, err, if◌then◌else◌, ◌==◌, leb, ltb, length, take, drop, map, arith, All,
  length-append, take-length_append, drop-length_append,
}
use uringy.Common.Text.{codes}
use uringy.Common.Decimal.{decimal}
use uringy.Http.Payload.{Text, Method, method_from_str, Request, new_request, Response}
use uringy.Http.Uri.{parse_partial_uri, parse_partial_uri-reads, uri_of, or_empty, IsPath, IsQuery}
use uringy.Http.Router.{new_responder, Matchit, Router, handle}
use uringy.Http.Server.{
  Parsed, complete, find_lowercase, body_size, slice, Round, waiting, answered, stopped, respond,
  serialize, serve_round, handle_connection,
}
use uringy.Http.Server.Serving.Sizes.{body_size-decimal, slice-middle}

module _ (W E : Type 0) (write_all : Text → W → Result W E) (date : Text) (flush_on_drop : W → W)
    (S : Type 0) (M : Matchit S) (parse : Text → Parsed) where
  -- A whole request is answered. If the head of the data parses to a method, a URI and headers whose
  -- content length is that of the body behind it, the router handles the request with this method,
  -- the path and the query of the URI and exactly this body, its response is written into the buffer
  -- of the writer, which is then flushed without a check for errors, and the loop ends; the head alone is consumed, so the body is left in the buffer.
  pub serve_round-answers :
      (router : Router S M) (w w' : W) (head body extra name path : Text)
      (query fragment : Option Text) (m : Method) (headers : List (Text × Text))
      (response : Response)
      → parse (head ++ (body ++ extra))
        ≡ complete (length head) (some name) (some (uri_of path query fragment)) headers
      → find_lowercase (codes "content-length") headers ≡ some (decimal (length body))
      → length head + length body < 2 ^ 64
      → method_from_str name ≡ ok m
      → IsPath path
      → IsQuery query
      → handle S M new_responder (new_request m path (or_empty query) headers body) router
        ≡ returns (some response)
      → serialize W E write_all date response w ≡ returns (ok w')
      → serve_round W E write_all date flush_on_drop S M parse router w (head ++ (body ++ extra))
        ≡ returns (answered (flush_on_drop w') (body ++ extra))
  unfolding serve_round respond
  serve_round-answers router w w' head body extra name path query fragment m headers response parsed
        sized fits named v v' handled written =
      let data_ : Text = head ++ (body ++ extra) in
      let size : body_size headers ≡ length body =
        body_size-decimal headers (length body) sized (omega arith) in
      let end : (length head + body_size headers) % 2 ^ 64 ≡ length head + length body =
        rw size (omega arith) in
      let long : ltb (length data_) (length head + length body) ≡ false =
        ground (arith, length-append head (body ++ extra), length-append body extra) in
      let consumed : leb (length head) (length data_) ≡ true =
        ground (arith, length-append head (body ++ extra)) in
      ground (
        arith,
        parsed,
        end,
        long,
        named,
        handled,
        written,
        consumed,
        parse_partial_uri-reads path query fragment v v',
        slice-middle head body extra,
        drop-length_append head (body ++ extra),
      )

  -- A content length of 2^64 - 1, the largest that is read, makes the sum with the size of the head
  -- wrap around, and the fiber of the connection panics when it takes the body.
  pub serve_round-overflows :
      (router : Router S M) (w : W) (data_ name uri p query : Text) (size : ℕ) (m : Method)
      (headers : List (Text × Text))
      → parse data_ ≡ complete size (some name) (some uri) headers
      → find_lowercase (codes "content-length") headers ≡ some (decimal (2 ^ 64 - 1))
      → 0 < size
      → size ≤ length data_
      → size < 2 ^ 64
      → parse_partial_uri uri ≡ returns (p, query)
      → method_from_str name ≡ ok m
      → serve_round W E write_all date flush_on_drop S M parse router w data_ ≡ panics
  unfolding serve_round
  serve_round-overflows router w data_ name uri p query size m headers parsed sized some_ long fits
        split named =
      let huge : body_size headers ≡ 2 ^ 64 - 1 =
        body_size-decimal headers (2 ^ 64 - 1) sized (omega arith) in
      let end : (size + body_size headers) % 2 ^ 64 ≡ size - 1 = rw huge (omega arith) in
      let enough : ltb (length data_) (size - 1) ≡ false = ground arith in
      let backwards : slice data_ size (size - 1) ≡ panics = ground arith in
      ground (arith, parsed, end, enough, split, named, backwards)

  -- While the data of each round is not yet a whole request, the connection waits, and then goes on as
  -- if those rounds had not been.
  pub handle_connection-waits :
      (rounds : List Text) (later : List (Bool × Text)) (router : Router S M) (w : W)
      → All
          (λ d. serve_round W E write_all date flush_on_drop S M parse router w d ≡ returns waiting)
          rounds
      → handle_connection W E write_all date flush_on_drop S M parse
          (map (λ d. (false, d)) rounds ++ later)
          router
          w
        ≡ handle_connection W E write_all date flush_on_drop S M parse later router w
  unfolding handle_connection
  handle_connection-waits [] later router w v = refl
  handle_connection-waits (d ∷ ds) later router w (p, v) =
      ground (arith, p, handle_connection-waits ds later router w v)
